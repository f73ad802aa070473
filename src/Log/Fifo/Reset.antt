-- ===== src/Log/Fifo/Reset.antt =====
-- A call of TryAppendLog that has reset m_uLastLogFailTime finds it so under the lock (log/log.cpp).
use wslyh.Log.Ring.Invariant.{IsRing}
use wslyh.Log.Ring.Limit.{OnValue, OnValue-bind, OnValue-if, anything}
use wslyh.Log.Ring.{RingLog, cell, claim, pointed, release, same_address, set_full, with_cell}
use wslyh.Log.Cell.{Address, clear_buffer, is_empty, is_free}
use wslyh.Base.{Bool, List, Option, Outcome, false, ok, refl, true, ℕ, ◌∙◌, ◌≡◌}
use wslyh.Log.Fifo.{Step, System}
use mathlib.Core.Path.{subst}

module _ (shmget : ℕ → Option ℕ) where
  pub IsRing-reset :
      (fulls frees : List Address) (s : RingLog)
      → IsRing shmget fulls frees s
      → IsRing shmget fulls frees (record s { last_log_fail_time = 0 })
  IsRing-reset fulls frees s r = record {
    base = r.base;
    chain = r.chain;
    cur = r.cur;
    full = r.full;
    free = r.free;
    blank = r.blank;
    prst_id = r.prst_id;
  }

-- while a call is between its reset and its Unlock, no failure is noted
abbrev pub IsReset : System → Type 0
IsReset s = s.calling ≡ true → s.log.last_log_fail_time ≡ 0

-- the call gives a log with the same time of failure
abbrev SameFail : RingLog → RingLog → Type 0
SameFail s t = t.last_log_fail_time ≡ s.last_log_fail_time

claim-SameFail : (s : RingLog) → OnValue (λ v. SameFail s v.0) (claim s)
unfolding claim
claim-SameFail s =
    let P : RingLog × Bool → Type 0 = λ v. SameFail s v.0 in
    OnValue-if P (is_empty (cell s s.prst_buf)) _ _ refl (λ e.
      OnValue-if P (is_free (cell s s.prst_buf)) _ _
        (OnValue-if P (same_address s.cur_buf s.prst_buf) _ _
          (OnValue-bind (λ a. Unit) P (pointed (cell (set_full s.cur_buf s) s.cur_buf).next) _
            (anything (pointed (cell (set_full s.cur_buf s) s.cur_buf).next)) (λ a x. refl))
          (λ d. tt))
        (λ d. refl))

release-SameFail : (s : RingLog) → OnValue (SameFail s) (release s)
unfolding release
release-SameFail s =
    OnValue-bind (λ c. Unit) (SameFail s) (clear_buffer (cell s s.prst_buf)) _
      (anything (clear_buffer (cell s s.prst_buf)))
      (λ c x.
        OnValue-bind (λ a. Unit) (SameFail s)
          (pointed (cell (with_cell s s.prst_buf c) s.prst_buf).next) _
          (anything (pointed (cell (with_cell s s.prst_buf c) s.prst_buf).next)) (λ a y. refl))

value_of : {A : Type 0} (P : A → Type 0) (o : Outcome A) (v : A) → o ≡ ok v → OnValue P o → P v
value_of P o v e h = subst (OnValue P) e h

pub Step-IsReset : (shmget : ℕ → Option ℕ) {s t : System} → Step shmget s t → IsReset s → IsReset t
Step-IsReset shmget (Step.reset c) z = λ d. refl
Step-IsReset shmget (Step.append log_line len cur_sec t flag c read small later e) z =
    λ d. let never : false ≡ true = d in cc
Step-IsReset shmget (Step.find_nothing p e) z = z
Step-IsReset shmget {s} (Step.take_cell t p e) z =
    λ d. value_of (λ v. SameFail s.log v.0) (claim s.log) (t, true) e (claim-SameFail s.log) ∙ z d
Step-IsReset shmget (Step.give_up p) z = z
Step-IsReset shmget (Step.write_file text p e) z = z
Step-IsReset shmget {s} (Step.free_cell t p e) z =
    λ d. value_of (SameFail s.log) (release s.log) t e (release-SameFail s.log) ∙ z d
