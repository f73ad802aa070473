-- ===== src/Log/Ring/Append.antt =====
-- What TryAppendLog does to the ring under the lock: a line is appended behind what the log holds, or
-- the log is full.
use wslyh.Base.{
  Bool, Bytes, List, Option, Outcome, [], ap, arith, false, fault, if◌then◌else◌, leb, length,
  length-splice, length-take, ltb, none, null_pointer, ok, refl, some, take, true, update, ℕ, ◌%◌,
  ◌*◌, ◌++◌, ◌+◌, ◌<◌, ◌==◌, ◌>>=◌, ◌^◌, ◌∙◌, ◌∷◌, ◌≡◌, ◌≤◌,
}
use wslyh.Log.Cell.{
  Address, BufferStatus, append_lem, appended, get_free_len, is_free-free, is_free-full,
  text_of-appended,
}
use wslyh.Log.Ring.{
  RingLog, append_line, append_to_cur, cell, expand, log_file_mem_limit, move_on, set_full, shm_key,
  with_cell,
}
use wslyh.Log.Ring.Chain.{
  All, All-apart, All-right, Apart, Apart-left, Chain-keep, Distinct-middle, Kept, Store, texts,
  texts-appended, texts-empty, update_eq,
}
use wslyh.Log.Ring.Invariant.{IsBase-update, IsBlank, IsFree, IsFull, IsRing, IsSound}

module _ (shmget : ℕ → Option ℕ) (log_line : Bytes) (len : ℕ) (read : len ≤ length log_line) where
  -- a text that fits the current cell
  pub append_to_cur_lem :
      (fulls rest : List Address) (s : RingLog)
      → IsRing shmget fulls (s.cur_buf ∷ rest) s
      → (cell s s.cur_buf).cur_length + len ≤ s.one_buff_len
      → (t : RingLog) × (append_to_cur log_line len s ≡ ok t)
        × ((m : Store) (xs : List Address)
            → Apart s.cur_buf.segment xs
            → All (Kept m) s.memory xs
            → All (Kept m) t.memory xs)
        × IsRing shmget fulls (s.cur_buf ∷ rest) t
        × (t.prst_buf ≡ s.prst_buf)
        × (t.last_log_fail_time ≡ s.last_log_fail_time)
        × (texts t.memory (fulls ++ s.cur_buf ∷ rest)
            ≡ texts s.memory (fulls ++ s.cur_buf ∷ rest) ++ take len log_line)
  unfolding append_to_cur
  append_to_cur_lem fulls rest s r fits =
      let p = s.cur_buf in
      let c = cell s p in
      let line = take len log_line in
      let b = r.base in
      let sound : IsSound s.one_buff_len p c =
        (All-right (IsSound s.one_buff_len) s.memory fulls (p ∷ rest) b.sound).0 in
      let room : c.tol_length ≤ length c.contents = omega (arith, b.room p.segment, sound.1) in
      let small : c.tol_length < 2 ^ 32 = omega (arith, b.small, sound.1) in
      let fits_cell : c.cur_length + len ≤ c.tol_length = omega (arith, sound.1) in
      let read_len : length line ≡ len = omega (arith, length-take len log_line) in
      let c' = appended c small sound.2 room line in
      let m' = update s.memory p.segment c' in
      let (before, behind) = Distinct-middle fulls rest p b.distinct in
      let blank_text : texts m' rest ≡ [] =
        texts-empty m' rest (All-apart IsBlank s.memory p.segment c' rest behind r.blank) in
      let blank_before : texts s.memory rest ≡ [] = texts-empty s.memory rest r.blank in
      (
        with_cell s p c',
        rw (append_lem c small sound.2 room log_line len read fits_cell),
        λ m xs a. All-apart (Kept m) s.memory p.segment c' xs a,
        record {
          base =
              IsBase-update shmget s.memory s.one_buff_len s.buff_cnt s.prst_buf (fulls ++ p ∷ rest)
                b p.segment c' refl refl (λ h. omega (arith, read_len, fits_cell))
                (length-splice c.contents c.cur_length line);
          chain = Chain-keep s.memory p.segment c' (fulls ++ p ∷ rest) s.prst_buf refl refl r.chain;
          cur = r.cur;
          full = All-apart IsFull s.memory p.segment c' fulls before r.full;
          free = (
            ap (λ d. d.status) (update_eq s.memory p.segment c') ∙ r.free.0,
            All-apart IsFree s.memory p.segment c' rest behind r.free.1,
          );
          blank = All-apart IsBlank s.memory p.segment c' rest behind r.blank;
          prst_id = r.prst_id;
        },
        refl,
        refl,
        texts-appended s.memory p c' line fulls rest before blank_text blank_before
            (text_of-appended c small sound.2 room line (omega (arith, read_len, fits_cell))),
      )

  -- How the call ends for a ring whose first cells are `fulls`, and whose text is `text`.
  pub data Appended (cur_sec : ℕ) (fulls : List Address) (text : Bytes) (s : RingLog)
      : Outcome (RingLog × Bool) → Type 0 where
    -- the line is appended
    taken :
        (t : RingLog) (flag : Bool) (more frees : List Address)
        → IsRing shmget (fulls ++ more) frees t
        → t.prst_buf ≡ s.prst_buf
        → All (Kept s.memory) t.memory fulls
        → t.last_log_fail_time ≡ 0
        → texts t.memory ((fulls ++ more) ++ frees) ≡ text ++ take len log_line
        → Appended cur_sec fulls text s (ok (t, flag))
    -- every cell is full: the line is lost, and the time noted
    lost :
        (t : RingLog) (flag : Bool) (more : List Address)
        → IsRing shmget (fulls ++ more) [] t
        → t.prst_buf ≡ s.prst_buf
        → All (Kept s.memory) t.memory fulls
        → t.last_log_fail_time ≡ cur_sec
        → texts t.memory (fulls ++ more) ≡ text
        → Appended cur_sec fulls text s (ok (t, flag))
    -- the segment for a further cell is not had, and its address is used all the same
    crashed :
        shmget (shm_key + s.buff_cnt) ≡ none → Appended cur_sec fulls text s (fault null_pointer)

  module _ (cur_sec : ℕ) (later : 0 < cur_sec) where
    pub append_line-fits :
        (s t : RingLog)
        → (cell s s.cur_buf).status ≡ BufferStatus.free
        → leb len (get_free_len (cell s s.cur_buf)) ≡ true
        → append_to_cur log_line len s ≡ ok t
        → append_line shmget log_line len cur_sec s ≡ ok (t, false)
    unfolding append_line
    append_line-fits s t e l a = rw (is_free-free (cell s s.cur_buf) e, l, a)

    pub append_line-full :
        (s : RingLog)
        → (cell s s.cur_buf).status ≡ BufferStatus.full
        → append_line shmget log_line len cur_sec s
          ≡ ok (record s { last_log_fail_time = cur_sec }, false)
    unfolding append_line
    append_line-full s e = rw (is_free-full (cell s s.cur_buf) e)

    pub append_line-moves :
        (s : RingLog)
        → (cell s s.cur_buf).status ≡ BufferStatus.free
        → leb len (get_free_len (cell s s.cur_buf)) ≡ false
        → append_line shmget log_line len cur_sec s ≡ (
            move_on shmget cur_sec (set_full s.cur_buf s) >>= λ t.
            (if t.last_log_fail_time == 0 then append_to_cur log_line len t else ok t) >>= λ u.
            ok (u, true))
    unfolding append_line
    append_line-moves s e l = rw (is_free-free (cell s s.cur_buf) e, l)

    pub move_on-next :
        (s : RingLog) (next : Address)
        → (cell s s.cur_buf).next ≡ some next
        → (cell s next).status ≡ BufferStatus.free
        → move_on shmget cur_sec s ≡ ok (record s { cur_buf = next })
    unfolding move_on
    move_on-next s next n e = rw (n, is_free-free (cell s next) e)

    pub move_on-full :
        (s : RingLog) (next : Address)
        → (cell s s.cur_buf).next ≡ some next
        → (cell s next).status ≡ BufferStatus.full
        → move_on shmget cur_sec s ≡ (
            if ltb log_file_mem_limit (s.one_buff_len * (s.buff_cnt + 1) % 2 ^ 32)
            then ok (record s { cur_buf = next; last_log_fail_time = cur_sec })
            else expand shmget next s)
    unfolding move_on
    move_on-full s next n e = rw (n, is_free-full (cell s next) e)

    -- the write behind a move to a blank cell
    pub Appended-then :
        (fulls more frees : List Address) (text : Bytes) (s t : RingLog)
        → IsRing shmget (fulls ++ more) (t.cur_buf ∷ frees) t
        → (cell t t.cur_buf).cur_length ≡ 0
        → len ≤ t.one_buff_len
        → t.last_log_fail_time ≡ 0
        → t.prst_buf ≡ s.prst_buf
        → All (Kept s.memory) t.memory fulls
        → texts t.memory ((fulls ++ more) ++ t.cur_buf ∷ frees) ≡ text
        → Appended cur_sec fulls text s (
            (if t.last_log_fail_time == 0 then append_to_cur log_line len t else ok t) >>= λ u.
            ok (u, true))
    Appended-then fulls more frees text s t r z l f p k e =
        let (u, a, uk, q, up, uf, ut) = append_to_cur_lem (fulls ++ more) frees t r (omega arith) in
        let test : (t.last_log_fail_time == 0) ≡ true = ground arith in
        rw (test, a)
          (taken u true more (t.cur_buf ∷ frees) q (up ∙ p)
            (uk s.memory fulls
              (Apart-left t.cur_buf.segment fulls more
                (Distinct-middle (fulls ++ more) frees t.cur_buf r.base.distinct).0)
              k)
            (uf ∙ f) (ut ∙ ap (λ x. x ++ take len log_line) e))
