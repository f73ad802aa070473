-- ===== src/Timer/Rule.antt =====
-- A rule for Tick (http/timer.cpp): what each of its rounds keeps, it keeps.
use wslyh.Base.{
  Bool-cases, List, Succeeds, Succeeds-value, [], arith, false, if◌then◌else◌, inl, inr, ltb, refl,
  suc, succeeds, zero, ℕ, ◌++◌, ◌+◌, ◌<◌, ◌==◌, ◌∷◌, ◌≡◌,
}
use wslyh.Timer.{TimerHeap, expire, tick, tick_loop}
use wslyh.Timer.Order.{IsQueued, IsValid}
use wslyh.Timer.Remove.{Popped, pop_timer-Popped}
use wslyh.Timer.Ticks.{peek-root}

-- the callbacks after the timer at the root expired
abbrev pub called_with : TimerHeap → List ℕ → List ℕ
called_with h out =
    if (h.timers (h.slots 0)).has_callback
    then out ++ (h.timers (h.slots 0)).client_data ∷ []
    else out

module _ (P : TimerHeap → List ℕ → Type 0)
    (round : (h h' : TimerHeap) (out : List ℕ)
      → IsQueued h (h.slots 0)
      → Popped h h'
      → P h out
      → P h' (called_with h out)) where
  tick_loop-keeps :
      (k now : ℕ) (h : TimerHeap) (out : List ℕ)
      → h.cur_num < k
      → IsValid h
      → P h out
      → Succeeds (λ r. P r.0 r.1) (tick_loop k now h out)
  unfolding tick_loop
  tick_loop-keeps zero now h out f v p = absurd (omega arith)
  tick_loop-keeps (suc k) now h out f v p = elim (Bool-cases (h.cur_num == 0)) [
    | inl none_left ↦ rw none_left (succeeds p)
    | inr more ↦
        let some_left : 0 < h.cur_num = ground arith in
        let real : (h.slots 0 == 0) ≡ false = ground (arith, v.present 0 some_left) in
        rw (more, peek-root h v)
          (elim (Bool-cases (ltb now (expire h (h.slots 0)))) [
            | inl late ↦ rw (real, late) (succeeds p)
            | inr old ↦
                let (h', popped, q) = Succeeds-value (pop_timer-Popped h v some_left) in
                rw (real, old, popped)
                  (tick_loop-keeps k now h' (called_with h out) (omega (arith, q.one_less)) q.valid
                    (round h h' out (rw (v.located 0 some_left) (some_left, refl)) q p))
          ])
  ]

  pub tick-keeps :
      (now : ℕ) (h : TimerHeap) → IsValid h → P h [] → Succeeds (λ r. P r.0 r.1) (tick now h)
  unfolding tick
  tick-keeps now h v p =
      rw (peek-root h v) (tick_loop-keeps (h.cur_num + 1) now h [] (omega arith) v p)
