-- ===== src/Log/Fifo/Bounded.antt =====
-- The memory of the log stays within its limit, whatever its threads do.
use wslyh.Log.Fifo.Lossless.{fresh}
use wslyh.Base.{
  Option, Outcome, ap, arith, none, ok, refl, some, suc, true, zero, ℕ, ◌%◌, ◌*◌, ◌+◌, ◌^◌, ◌∙◌,
  ◌≡◌, ◌≤◌,
}
use wslyh.Log.Cell.{Address, clear_buffer, is_empty, is_free}
use wslyh.Log.Ring.{
  RingLog, append_line, attach_cell, cell, claim, construct, construct_loop, create_cell_buffer,
  if_made, log_file_mem_limit, log_mem_set, pointed, release, same_address, set_full, shm_key,
  with_cell,
}
use wslyh.Log.Ring.Limit.{
  IsLimited, IsLimited-append_line, OfRing, OnValue, OnValue-bind, OnValue-if, anything, one_more,
}
use wslyh.Log.Fifo.{Reach, Step, System}
use mathlib.Core.Path.{subst}
use mathlib.Core.Option

IsLimited-claim : (s : RingLog) → IsLimited s → OnValue OfRing (claim s)
unfolding claim
IsLimited-claim s h = OnValue-if OfRing (is_empty (cell s s.prst_buf)) _ _ h (λ e.
    OnValue-if OfRing (is_free (cell s s.prst_buf)) _ _
      (OnValue-if OfRing (same_address s.cur_buf s.prst_buf) _ _
        (OnValue-bind (λ a. Unit) OfRing (pointed (cell (set_full s.cur_buf s) s.cur_buf).next) _
          (anything (pointed (cell (set_full s.cur_buf s) s.cur_buf).next)) (λ a x. h))
        (λ d. tt))
      (λ d. h))

IsLimited-release : (s : RingLog) → IsLimited s → OnValue IsLimited (release s)
unfolding release
IsLimited-release s h =
    OnValue-bind (λ c. Unit) IsLimited (clear_buffer (cell s s.prst_buf)) _
      (anything (clear_buffer (cell s s.prst_buf)))
      (λ c x.
        OnValue-bind (λ a. Unit) IsLimited
          (pointed (cell (with_cell s s.prst_buf c) s.prst_buf).next) _
          (anything (pointed (cell (with_cell s s.prst_buf c) s.prst_buf).next)) (λ a y. h))

value_of : {A : Type 0} (P : A → Type 0) (o : Outcome A) (v : A) → o ≡ ok v → OnValue P o → P v
value_of P o v e h = subst (OnValue P) e h

log_mem_set-bounded : (n : ℕ) → log_mem_set n ≤ 50 * 1024 * 1024
unfolding log_mem_set
log_mem_set-bounded n = ground arith

module _ (shmget : ℕ → Option ℕ) where
  Step-IsLimited : {s t : System} → Step shmget s t → IsLimited s.log → IsLimited t.log
  Step-IsLimited (Step.reset c) h = h
  Step-IsLimited {s} (Step.append log_line len cur_sec t flag c read small later e) h =
      value_of OfRing (append_line shmget log_line len cur_sec s.log) (t, flag) e
        (IsLimited-append_line shmget log_line len cur_sec s.log h)
  Step-IsLimited (Step.find_nothing p e) h = h
  Step-IsLimited {s} (Step.take_cell t p e) h =
      value_of OfRing (claim s.log) (t, true) e (IsLimited-claim s.log h)
  Step-IsLimited (Step.give_up p) h = h
  Step-IsLimited (Step.write_file text p e) h = h
  Step-IsLimited {s} (Step.free_cell t p e) h =
      value_of IsLimited (release s.log) t e (IsLimited-release s.log h)

  Reach-IsLimited : {s t : System} → Reach shmget s t → IsLimited s.log → IsLimited t.log
  Reach-IsLimited Reach.here h = h
  Reach-IsLimited (Reach.next r st) h = Step-IsLimited st (Reach-IsLimited r h)

  OnSome : {A : Type 0} → (A → Type 0) → Option A → Type 0
  OnSome P none = Unit
  OnSome P (some v) = P v

  SameSize : ℕ → ℕ → Address × RingLog → Type 0
  SameSize len cnt made = (made.1.one_buff_len ≡ len) × (made.1.buff_cnt ≡ cnt)

  OnSome-if_made :
      (P Q : Address × RingLog → Type 0) (o : Option (Address × RingLog))
      (f : Address × RingLog → Option (Address × RingLog))
      → OnSome P o
      → ((v : Address × RingLog) → P v → OnSome Q (f v))
      → OnSome Q (if_made o f)
  unfolding OnSome
  OnSome-if_made P Q none f h k = tt
  OnSome-if_made P Q (some v) f h k = k v h

  SameSize-attach_cell :
      (k : Option ℕ) (s : RingLog) → OnSome (SameSize s.one_buff_len s.buff_cnt) (attach_cell k s)
  unfolding OnSome SameSize
  SameSize-attach_cell none s = tt
  SameSize-attach_cell (some id) s = (refl, refl)

  SameSize-construct_loop :
      (len cnt rounds : ℕ) (prev : Address) (s : RingLog)
      → s.one_buff_len ≡ len
      → s.buff_cnt ≡ cnt
      → OnSome (SameSize len cnt) (construct_loop shmget rounds prev s)
  unfolding construct_loop OnSome SameSize create_cell_buffer
  SameSize-construct_loop len cnt zero prev s l c = (l, c)
  SameSize-construct_loop len cnt (suc rounds) prev s l c =
      OnSome-if_made (SameSize s.one_buff_len s.buff_cnt) (SameSize len cnt)
        (attach_cell (shmget (shm_key + 1)) s) _ (SameSize-attach_cell (shmget (shm_key + 1)) s)
        (λ made h. SameSize-construct_loop len cnt rounds made.0 _ (h.0 ∙ l) (h.1 ∙ c))

  OnSome-map :
      (P : RingLog → Type 0) (o : Option (Address × RingLog))
      → OnSome (λ made. P made.1) o
      → OnSome P (Option.map (λ (made : Address × RingLog). made.1) o)
  unfolding OnSome
  OnSome-map P none h = h
  OnSome-map P (some v) h = h

  IsSized : ℕ → RingLog → Type 0
  IsSized len s = (s.one_buff_len ≡ len) × (s.buff_cnt ≡ 3)

  IsSized-construct : (s0 : RingLog) → OnSome (IsSized s0.one_buff_len) (construct shmget s0)
  unfolding construct IsSized SameSize OnSome create_cell_buffer
  IsSized-construct s0 =
      let P = SameSize s0.one_buff_len 3 in
      let s1 : RingLog = record s0 { buff_cnt = 3; last_log_fail_time = 0 } in
      OnSome-map (IsSized s0.one_buff_len) _ (
        OnSome-if_made P P (attach_cell (shmget shm_key) s1) _
          (SameSize-attach_cell (shmget shm_key) s1)
          (λ head h.
            OnSome-if_made P P (construct_loop shmget 2 head.0 head.1) _
              (SameSize-construct_loop s0.one_buff_len 3 2 head.0 head.1 h.0 h.1) (λ last g. g)))

  -- With the length of a cell that LOG_MEM_SET gives, from the constructor on and whatever is called,
  -- where no two calls of TryAppendLog are at once between their reset and Unlock, the cells that are
  -- counted never take more than 3 GB together, and the product that TryAppendLog compares with that
  -- limit in 32 bits never wraps around.
  pub memory-bounded :
      (mem_lmt : ℕ) (s0 s : RingLog)
      → construct shmget s0 ≡ some s
      → s0.one_buff_len ≡ log_mem_set mem_lmt
      → {t : System} → Reach shmget (fresh s) t
      → (t.log.one_buff_len * t.log.buff_cnt ≤ log_file_mem_limit)
        × (t.log.one_buff_len * (t.log.buff_cnt + 1) % 2 ^ 32
            ≡ t.log.one_buff_len * (t.log.buff_cnt + 1))
  unfolding OnSome IsSized
  memory-bounded mem_lmt s0 s made sized {t} r =
      let sizes : OnSome (IsSized s0.one_buff_len) (some s) =
        subst (OnSome (IsSized s0.one_buff_len)) made (IsSized-construct s0) in
      let small : s.one_buff_len ≤ 50 * 1024 * 1024 =
        omega (arith, sizes.0, sized, log_mem_set-bounded mem_lmt) in
      let start : IsLimited s = (small, omega (arith, ap (λ n. s.one_buff_len * n) sizes.1)) in
      let (l, m) = Reach-IsLimited r start in
      let d = one_more t.log.one_buff_len t.log.buff_cnt in (m, omega (arith, d, l, m))
