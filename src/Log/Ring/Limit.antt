-- ===== src/Log/Ring/Limit.antt =====
-- The memory that the cells of the ring take.
use wslyh.Base.{
  Bool, Bytes, Option, Outcome, arith, false, fault, if◌then◌else◌, leb, ltb, none, ok, refl, some,
  true, ℕ, ◌%◌, ◌&&◌, ◌*◌, ◌+◌, ◌<◌, ◌==◌, ◌>>=◌, ◌^◌, ◌≡◌, ◌≤◌,
}
use wslyh.Log.Cell.{Address, append, get_free_len, is_free}
use wslyh.Log.Ring.{
  RingLog, append_line, append_to_cur, attach_cell, cell, create_cell_buffer, expand,
  log_file_mem_limit, move_on, pointed, set_full, shm_key, with_cell,
}

-- the cells that are counted take no more than the limit together
abbrev pub IsLimited : RingLog → Type 0
IsLimited s =
    (s.one_buff_len ≤ 50 * 1024 * 1024) × (s.one_buff_len * s.buff_cnt ≤ log_file_mem_limit)

abbrev pub OnValue : {A : Type 0} → (A → Type 0) → Outcome A → Type 0
OnValue P (ok v) = P v
OnValue P (fault f) = Unit

abbrev pub OfRing : RingLog × Bool → Type 0
OfRing v = IsLimited v.0

pub anything : {A : Type 0} (o : Outcome A) → OnValue (λ v. Unit) o
anything (ok v) = tt
anything (fault f) = tt

pub OnValue-bind :
    {A B : Type 0} (P : A → Type 0) (Q : B → Type 0) (o : Outcome A) (f : A → Outcome B)
    → OnValue P o
    → ((v : A) → P v → OnValue Q (f v))
    → OnValue Q (o >>= f)
OnValue-bind P Q (ok v) f h k = k v h
OnValue-bind P Q (fault w) f h k = tt

pub OnValue-if :
    {A : Type 0} (P : A → Type 0) (b : Bool) (o p : Outcome A)
    → OnValue P o
    → (b ≡ false → OnValue P p)
    → OnValue P (if b then o else p)
OnValue-if P true o p h k = h
OnValue-if P false o p h k = k refl

pub one_more : (len cnt : ℕ) → len * (cnt + 1) ≡ len * cnt + len
one_more len cnt = ground arith

module _ (shmget : ℕ → Option ℕ) where
  -- the test of TryAppendLog, whose product does not wrap around
  below :
      (s : RingLog)
      → IsLimited s
      → ltb log_file_mem_limit (s.one_buff_len * (s.buff_cnt + 1) % 2 ^ 32) ≡ false
      → s.one_buff_len * (s.buff_cnt + 1) ≤ log_file_mem_limit
  below s (l, m) e =
      let d = one_more s.one_buff_len s.buff_cnt in
      let small : s.one_buff_len * (s.buff_cnt + 1) < 2 ^ 32 = omega (arith, d) in
      let k : s.one_buff_len * (s.buff_cnt + 1) % 2 ^ 32 ≤ log_file_mem_limit = ground arith in
      omega (arith, small, k)

  IsLimited-append_to_cur :
      (line : Bytes) (len : ℕ) (s : RingLog)
      → IsLimited s
      → OnValue IsLimited (append_to_cur line len s)
  unfolding append_to_cur
  IsLimited-append_to_cur line len s h =
      OnValue-bind (λ c. Unit) IsLimited (append line len (cell s s.cur_buf))
        (λ c. ok (with_cell s s.cur_buf c)) (anything (append line len (cell s s.cur_buf)))
        (λ c x. h)

  SameLen : RingLog → Address × RingLog → Type 0
  SameLen s made = made.1.one_buff_len ≡ s.one_buff_len

  SameLen-attach_cell :
      (k : Option ℕ) (s : RingLog) → OnValue (SameLen s) (pointed (attach_cell k s))
  unfolding SameLen
  SameLen-attach_cell none s = tt
  SameLen-attach_cell (some id) s = refl

  IsLimited-expand :
      (next : Address) (s : RingLog)
      → s.one_buff_len ≤ 50 * 1024 * 1024
      → s.one_buff_len * (s.buff_cnt + 1) ≤ log_file_mem_limit
      → OnValue IsLimited (expand shmget next s)
  unfolding expand SameLen create_cell_buffer
  IsLimited-expand next s l m =
      OnValue-bind (SameLen s) IsLimited (pointed (attach_cell (shmget (shm_key + s.buff_cnt)) s)) _
        (SameLen-attach_cell (shmget (shm_key + s.buff_cnt)) s)
        (λ made e. (omega (arith, e, l), rw e m))

  IsLimited-move_on :
      (cur_sec : ℕ) (s : RingLog) → IsLimited s → OnValue IsLimited (move_on shmget cur_sec s)
  unfolding move_on
  IsLimited-move_on cur_sec s h =
      OnValue-bind (λ a. Unit) IsLimited (pointed (cell s s.cur_buf).next) _
        (anything (pointed (cell s s.cur_buf).next))
        (λ next x.
          OnValue-if IsLimited (is_free (cell s next)) (ok (record s { cur_buf = next })) _ h (λ e.
            OnValue-if IsLimited
              (ltb log_file_mem_limit (s.one_buff_len * (s.buff_cnt + 1) % 2 ^ 32))
              (ok (record s { cur_buf = next; last_log_fail_time = cur_sec }))
              (expand shmget next s) h (λ d. IsLimited-expand next s h.0 (below s h d))))

  pub IsLimited-append_line :
      (line : Bytes) (len cur_sec : ℕ) (s : RingLog)
      → IsLimited s
      → OnValue OfRing (append_line shmget line len cur_sec s)
  unfolding append_line
  IsLimited-append_line line len cur_sec s h =
      OnValue-if OfRing (is_free (cell s s.cur_buf) && leb len (get_free_len (cell s s.cur_buf))) _
        _
        (OnValue-bind IsLimited OfRing (append_to_cur line len s) _
          (IsLimited-append_to_cur line len s h) (λ t x. x))
        (λ e.
          OnValue-if OfRing (is_free (cell s s.cur_buf)) _ _
            (OnValue-bind IsLimited OfRing (move_on shmget cur_sec (set_full s.cur_buf s)) _
              (IsLimited-move_on cur_sec (set_full s.cur_buf s) h)
              (λ t x.
                OnValue-bind IsLimited OfRing
                  (if t.last_log_fail_time == 0 then append_to_cur line len t else ok t) _
                  (OnValue-if IsLimited (t.last_log_fail_time == 0) (append_to_cur line len t)
                    (ok t) (IsLimited-append_to_cur line len t x) (λ d. x))
                  (λ u y. y)))
            (λ d. h))
