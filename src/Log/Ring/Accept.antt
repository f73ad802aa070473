-- ===== src/Log/Ring/Accept.antt =====
-- TryAppendLog under the lock, on every branch.
use mathlib.Core.Path.{subst}
use wslyh.Base.{
  Bool, Bytes, List, Option, Outcome, [], ap, append-nil, arith, false, if◌then◌else◌, leb, length,
  ltb, none, ok, refl, some, suc, sym, true, ℕ, ◌%◌, ◌*◌, ◌++◌, ◌+◌, ◌-◌, ◌<◌, ◌==◌, ◌>>=◌, ◌^◌,
  ◌∙◌, ◌∷◌, ◌≡◌, ◌≤◌,
}
use wslyh.Log.Cell.{Address, BufferStatus, get_free_len, get_free_len_lem}
use wslyh.Log.Ring.{
  RingLog, append_line, append_to_cur, cell, expand, log_file_mem_limit, move_on, set_full, shm_key,
}
use wslyh.Log.Ring.Chain.{All, All-Kept, All-right, Chain, Distinct-middle, texts}
use wslyh.Log.Ring.Append.{
  Appended, Appended-then, append_line-fits, append_line-full, append_line-moves, append_to_cur_lem,
  move_on-full, move_on-next,
}
use wslyh.Log.Ring.Filled.{
  Chain-marked, IsBase-marked, IsBlank-marked, IsFree-marked, IsFull-marked, IsRing-filled,
  Kept-marked, marked, next-marked, texts-marked,
}
use wslyh.Log.Ring.Invariant.{IsBase, IsFull, IsRing, IsSound}
use wslyh.Log.Ring.Grow.{IsRing-grown, expand-none, expand-some, grown, new_address}
use wslyh.Log.Ring.Expand.{IsNew-expanded, Kept-expanded, texts-expanded}

module _ (shmget : ℕ → Option ℕ)
    (injective : (j k i : ℕ) → shmget j ≡ some i → shmget k ≡ some i → j ≡ k) (log_line : Bytes)
    (len : ℕ) (read : len ≤ length log_line) (cur_sec : ℕ) (later : 0 < cur_sec) where
  abbrev Ends : List Address → Bytes → RingLog → Outcome (RingLog × Bool) → Type 0
  Ends fulls text s = Appended shmget log_line len read cur_sec fulls text s

  -- the branch for a current cell that is too short
  moved :
      (fulls rest : List Address) (s : RingLog)
      → IsRing shmget fulls (s.cur_buf ∷ rest) s
      → 0 < (cell s s.cur_buf).cur_length
      → s.last_log_fail_time ≡ 0
      → len ≤ s.one_buff_len
      → Ends fulls (texts s.memory (fulls ++ s.cur_buf ∷ rest)) s (
          move_on shmget cur_sec (set_full s.cur_buf s) >>= λ t.
          (if t.last_log_fail_time == 0 then append_to_cur log_line len t else ok t) >>= λ u.
          ok (u, true))
  moved fulls (n ∷ rest) s r l z f =
      let p = s.cur_buf in
      let t : RingLog = record (marked shmget fulls (n ∷ rest) p s r) { cur_buf = n } in
      rw
        (move_on-next shmget log_line len read cur_sec later (set_full p s) n
          (next-marked shmget fulls (n ∷ rest) p s r)
          (IsFree-marked shmget fulls (n ∷ rest) p s r).0)
        (Appended-then shmget log_line len read cur_sec later fulls (p ∷ []) rest
          (texts s.memory (fulls ++ p ∷ n ∷ rest)) s t
          (IsRing-filled shmget fulls (n ∷ rest) p s r l)
          (IsBlank-marked shmget fulls (n ∷ rest) p s r).0 f z refl
          (Kept-marked shmget fulls (n ∷ rest) p s r) (texts-marked shmget fulls (n ∷ rest) p s r))
  moved fulls [] s r l z f =
      rw
        (move_on-full shmget log_line len read cur_sec later s' s.prst_buf
          (next-marked shmget fulls [] p s r) prst_full)
        (by_limit (ltb log_file_mem_limit (s.one_buff_len * (s.buff_cnt + 1) % 2 ^ 32)))
    where
      p : Address
      p = s.cur_buf

      s' : RingLog
      s' = set_full p s

      all_full : All IsFull s'.memory (fulls ++ p ∷ [])
      all_full = IsFull-marked shmget fulls [] p s r l

      same : (fulls ++ p ∷ []) ++ [] ≡ fulls ++ p ∷ []
      same = append-nil (fulls ++ p ∷ [])

      b : IsBase shmget s'.memory s.one_buff_len s.buff_cnt s.prst_buf (fulls ++ p ∷ [])
      b =
          subst (IsBase shmget s'.memory s.one_buff_len s.buff_cnt s.prst_buf) same
            (IsBase-marked shmget fulls [] p s r)

      chain : Chain s'.memory (fulls ++ p ∷ []) s.prst_buf
      chain = subst (λ o. Chain s'.memory o s.prst_buf) same (Chain-marked shmget fulls [] p s r)

      prst_full : (cell s' s.prst_buf).status ≡ BufferStatus.full
      prst_full = (subst (All IsFull s'.memory) b.head.1 all_full).0.0

      kept : texts s'.memory (fulls ++ p ∷ []) ≡ texts s.memory (fulls ++ p ∷ [])
      kept = ap (texts s'.memory) (sym same) ∙ texts-marked shmget fulls [] p s r

      by_key :
          (k : Option ℕ)
          → shmget (shm_key + s.buff_cnt) ≡ k
          → Ends fulls (texts s.memory (fulls ++ p ∷ [])) s (
              expand shmget s.prst_buf s' >>= λ t.
              (if t.last_log_fail_time == 0 then append_to_cur log_line len t else ok t) >>= λ u.
              ok (u, true))
      by_key none e = rw (expand-none shmget s.prst_buf s' e) (Appended.crashed e)
      by_key (some id) e =
          let t = grown shmget injective fulls s' b chain all_full r.prst_id id e in
          let new_cells =
            IsNew-expanded shmget injective s'.memory s.one_buff_len s.buff_cnt s.prst_buf p fulls b
              chain all_full (new_address shmget injective fulls s' b chain all_full r.prst_id id e)
              e in
          rw (expand-some shmget injective fulls s' b chain all_full r.prst_id id e) (
            Appended-then shmget log_line len read cur_sec later fulls (p ∷ []) []
              (texts s.memory (fulls ++ p ∷ [])) s t
              (IsRing-grown shmget injective fulls s' b chain all_full r.prst_id id e) new_cells.0.1
              f z refl
              (Kept-expanded shmget injective s'.memory s.one_buff_len s.buff_cnt s.prst_buf p fulls
                b chain all_full
                (new_address shmget injective fulls s' b chain all_full r.prst_id id e) e s.memory
                (Kept-marked shmget fulls [] p s r))
              (texts-expanded shmget injective s'.memory s.one_buff_len s.buff_cnt s.prst_buf p
                  fulls b chain all_full
                  (new_address shmget injective fulls s' b chain all_full r.prst_id id e) e
                ∙ kept))

      by_limit :
          (d : Bool)
          → Ends fulls (texts s.memory (fulls ++ p ∷ [])) s (
              (if d
                then ok (record s' { cur_buf = s.prst_buf; last_log_fail_time = cur_sec })
                else expand shmget s.prst_buf s')
              >>= λ t.
                  (if t.last_log_fail_time == 0 then append_to_cur log_line len t else ok t)
                  >>= λ u. ok (u, true))
      by_limit false = by_key (shmget (shm_key + s.buff_cnt)) refl
      by_limit true =
          let test : (cur_sec == 0) ≡ false = ground arith in
          let q = IsRing-filled shmget fulls [] p s r l in
          rw test (
            Appended.lost (record s' { cur_buf = s.prst_buf; last_log_fail_time = cur_sec }) true
              (p ∷ [])
              (record {
                base = q.base;
                chain = q.chain;
                cur = q.cur;
                full = q.full;
                free = q.free;
                blank = q.blank;
                prst_id = q.prst_id;
              })
              refl (Kept-marked shmget fulls [] p s r) refl kept)

  -- TryAppendLog under the lock, for a line no longer than a cell and a time after 0, on a ring in
  -- order with no failure noted, where shmget gives different segments for different keys. Either the
  -- line stands behind all that the ring holds, or, with every cell full, nothing of the ring's text
  -- changes and the time is noted, or the key of a further cell gives no segment and a null pointer
  -- is used. In the first two cases the ring is in order, PersistLog's cell stays what it is, and the
  -- full cells stay in front with their text.
  pub append_line-Appended :
      (fulls frees : List Address) (s : RingLog)
      → IsRing shmget fulls frees s
      → s.last_log_fail_time ≡ 0
      → len ≤ s.one_buff_len
      → Ends fulls (texts s.memory (fulls ++ frees)) s (append_line shmget log_line len cur_sec s)
  append_line-Appended [] [] s r z f =
      let none_left : 0 ≡ suc (length r.base.head.0) =
        ap (λ (o : List Address). length o) r.base.head.1 in
      absurd (omega arith)
  append_line-Appended (x ∷ fulls) [] s r z f =
      let full : (cell s s.cur_buf).status ≡ BufferStatus.full =
        subst (λ a. (cell s a).status ≡ BufferStatus.full) (sym r.cur) r.full.0.0 in
      let t : RingLog = record s { last_log_fail_time = cur_sec } in
      rw (append_line-full shmget log_line len read cur_sec later s full) (
        Appended.lost t false []
          (subst (λ o. IsRing shmget o [] t) (sym (append-nil (x ∷ fulls)))
            (record {
              base = r.base;
              chain = r.chain;
              cur = r.cur;
              full = r.full;
              free = r.free;
              blank = r.blank;
              prst_id = r.prst_id;
            }))
          refl (All-Kept s.memory (x ∷ fulls)) refl refl)
  append_line-Appended fulls (c ∷ rest) s r z f =
      subst
        (λ a.
          Ends fulls (texts s.memory (fulls ++ a ∷ rest)) s
            (append_line shmget log_line len cur_sec s))
        r.cur
        (by_room (leb len (get_free_len (cell s s.cur_buf))) refl
          (subst (λ a. IsRing shmget fulls (a ∷ rest) s) (sym r.cur) r))
    where
      by_left :
          (d : Bool)
          → leb len (get_free_len (cell s s.cur_buf)) ≡ d
          → IsRing shmget fulls (s.cur_buf ∷ rest) s
          → IsSound s.one_buff_len s.cur_buf (cell s s.cur_buf)
          → get_free_len (cell s s.cur_buf)
            ≡ (cell s s.cur_buf).tol_length - (cell s s.cur_buf).cur_length
          → Ends fulls
              (texts s.memory (fulls ++ s.cur_buf ∷ rest))
              s
              (append_line shmget log_line len cur_sec s)
      by_left true e q sound left =
          let fits : len ≤ get_free_len (cell s s.cur_buf) = ground arith in
          let (t, a, k, u, up, uf, ut) =
            append_to_cur_lem shmget log_line len read fulls rest s q
              (omega (arith, sound.1, sound.2)) in
          rw (append_line-fits shmget log_line len read cur_sec later s t q.free.0 e a) (
            Appended.taken t false [] (s.cur_buf ∷ rest)
              (subst (λ o. IsRing shmget o (s.cur_buf ∷ rest) t) (sym (append-nil fulls)) u) up
              (k s.memory fulls (Distinct-middle fulls rest s.cur_buf q.base.distinct).0
                (All-Kept s.memory fulls))
              (uf ∙ z) (ap (λ o. texts t.memory (o ++ s.cur_buf ∷ rest)) (append-nil fulls) ∙ ut))
      by_left false e q sound left =
          let short : get_free_len (cell s s.cur_buf) < len = ground arith in
          rw (append_line-moves shmget log_line len read cur_sec later s q.free.0 e)
            (moved fulls rest s q (omega (arith, sound.1, sound.2)) z f)

      by_room :
          (d : Bool)
          → leb len (get_free_len (cell s s.cur_buf)) ≡ d
          → IsRing shmget fulls (s.cur_buf ∷ rest) s
          → Ends fulls
              (texts s.memory (fulls ++ s.cur_buf ∷ rest))
              s
              (append_line shmget log_line len cur_sec s)
      by_room d e q =
          let sound : IsSound s.one_buff_len s.cur_buf (cell s s.cur_buf) =
            (All-right (IsSound s.one_buff_len) s.memory fulls (s.cur_buf ∷ rest) q.base.sound).0 in
          let room : (cell s s.cur_buf).tol_length ≤ length (cell s s.cur_buf).contents =
            omega (arith, q.base.room s.cur_buf.segment, sound.1) in
          let small : (cell s s.cur_buf).tol_length < 2 ^ 32 =
            omega (arith, q.base.small, sound.1) in
          by_left d e q sound (get_free_len_lem (cell s s.cur_buf) small sound.2 room)
