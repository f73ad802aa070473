-- ===== src/Log/Fifo/Taken.antt =====
-- How a call of TryAppendLog leads from one state of the ring to the next.
use mathlib.Core.Path.{subst}
use wslyh.Base.{
  Bool, Bytes, List, Option, Outcome, [], ap, append-nil, arith, false, fault, if◌then◌else◌,
  length, ok, some, sym, take, true, ℕ, ◌++◌, ◌<◌, ◌==◌, ◌∙◌, ◌≡◌, ◌≤◌,
}
use wslyh.Log.Cell.{Address}
use wslyh.Log.Ring.{RingLog, append_line}
use wslyh.Log.Ring.Chain.{All, Kept, texts}
use wslyh.Log.Ring.Invariant.{IsRing}
use wslyh.Log.Ring.Append.{Appended}
use wslyh.Log.Ring.Accept.{append_line-Appended}

module _ (shmget : ℕ → Option ℕ)
    (injective : (j k i : ℕ) → shmget j ≡ some i → shmget k ≡ some i → j ≡ k) where
  -- a call of TryAppendLog from a ring with the first cells `fulls`: how the ring and what is
  -- accepted go on
  module _ (log_line : Bytes) (len cur_sec : ℕ) (read : len ≤ length log_line) (later : 0 < cur_sec)
      (s : RingLog) (small : len ≤ s.one_buff_len) (fresh : s.last_log_fail_time ≡ 0) where
    abbrev pub taken_in : RingLog → Bytes
    taken_in t = if t.last_log_fail_time == 0 then take len log_line else []

    abbrev pub GoesOn : List Address → List Address → RingLog → Type 0
    GoesOn fulls frees t =
        (more : List Address) × (frees' : List Address) × IsRing shmget (fulls ++ more) frees' t
        × (t.prst_buf ≡ s.prst_buf)
        × All (Kept s.memory) t.memory fulls
        × (texts t.memory ((fulls ++ more) ++ frees')
            ≡ texts s.memory (fulls ++ frees) ++ taken_in t)

    abbrev value_of : RingLog → Outcome (RingLog × Bool) → RingLog
    value_of t (ok v) = v.0
    value_of t (fault f) = t

    ends_in :
        (fulls frees : List Address) (t : RingLog) (flag : Bool) (o : Outcome (RingLog × Bool))
        → Appended shmget log_line len read cur_sec fulls (texts s.memory (fulls ++ frees)) s o
        → o ≡ ok (t, flag)
        → GoesOn fulls frees t
    ends_in fulls frees t flag _ (Appended.taken t' flag' more frees' r p k z x) q =
        let all_of_it : (t'.last_log_fail_time == 0) ≡ true = ground arith in
        subst (GoesOn fulls frees) (ap (value_of t) q) (
          more,
          frees',
          r,
          p,
          k,
          x
              ∙ ap (λ b. texts s.memory (fulls ++ frees) ++ (if b then take len log_line else []))
                  (sym all_of_it),
        )
    ends_in fulls frees t flag _ (Appended.lost t' flag' more r p k z x) q =
        let none_of_it : (t'.last_log_fail_time == 0) ≡ false = ground arith in
        subst (GoesOn fulls frees) (ap (value_of t) q) (
          more,
          [],
          r,
          p,
          k,
          ap (texts t'.memory) (append-nil (fulls ++ more))
              ∙ x
              ∙ sym (append-nil (texts s.memory (fulls ++ frees)))
              ∙ ap (λ b. texts s.memory (fulls ++ frees) ++ (if b then take len log_line else []))
                  (sym none_of_it),
        )
    ends_in fulls frees t flag _ (Appended.crashed e) q = cc

    pub goes_on :
        (fulls frees : List Address) (t : RingLog) (flag : Bool)
        → IsRing shmget fulls frees s
        → append_line shmget log_line len cur_sec s ≡ ok (t, flag)
        → GoesOn fulls frees t
    goes_on fulls frees t flag r e =
        ends_in fulls frees t flag (append_line shmget log_line len cur_sec s)
          (append_line-Appended shmget injective log_line len read cur_sec later fulls frees s r
            fresh small)
          e
