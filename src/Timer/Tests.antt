-- ===== src/Timer/Tests.antt =====
-- The timer heap at work, and its theorems at a heap of two timers.
use wslyh.Base.{
  List, Outcome, Succeeds, [], arith, if◌then◌else◌, ok, refl, true, ℕ, ◌==◌, ◌>>=◌, ◌∷◌, ◌≡◌,
}
use wslyh.Timer.{
  Timer, TimerHeap, add_timer, adjust, down_loop, heap_down, load, peek, place, pop_timer, resize,
  smaller_child, tick, tick_loop, up_loop,
}
use wslyh.Timer.Order.{IsQueued, IsValid}
use wslyh.Timer.Insert.{Added, add_timer-Added}
use wslyh.Timer.Remove.{Popped, pop_timer-Popped}
use wslyh.Timer.Adjust.{Adjusted, adjust-Adjusted, set_expire}
use wslyh.Timer.Ticks.{Ticked, tick-Ticked}

-- the timers 1, 2 and 3; 2 and 1 are in the heap
abbrev store : ℕ → Timer
store t =
    if t == 1
    then record { expire_time = 30; has_callback = true; client_data = 7; pos = 1 }
    else if t == 2
    then record { expire_time = 20; has_callback = true; client_data = 8; pos = 0 }
    else record { expire_time = 10; has_callback = true; client_data = 9; pos = 0 }

abbrev sample : TimerHeap
sample = record { capacity = 2; cur_num = 2; slots = λ i. if i == 0 then 2 else 1; timers = store }

sample-IsValid : IsValid sample
sample-IsValid = record {
  bounded = omega arith;
  roomy = omega arith;
  present = λ i l. ground arith;
  located = λ i l. ground arith;
  ordered = λ c z l. ground arith;
}

-- what Tick calls the callbacks with, after timer 3 was added
called_by : ℕ → Outcome (List ℕ)
unfolding add_timer up_loop resize load place tick tick_loop peek pop_timer heap_down down_loop
    smaller_child
called_by now = do h ← add_timer sample 3; r ← tick now h; ok r.1

called_runs :
    (called_by 5 ≡ ok []) × (called_by 20 ≡ ok (9 ∷ 8 ∷ [])) × (called_by 30 ≡ ok (9 ∷ 8 ∷ 7 ∷ []))
unfolding called_by
called_runs = (refl, refl, refl)

three_out : ¬ IsQueued sample 3
three_out q = omega arith

add_timer-Added_example : Succeeds (Added sample 3) (add_timer sample 3)
add_timer-Added_example = add_timer-Added sample 3 sample-IsValid (omega arith) three_out

pop_timer-Popped_example : Succeeds (Popped sample) (pop_timer sample)
pop_timer-Popped_example = pop_timer-Popped sample sample-IsValid (omega arith)

adjust-Adjusted_example : Succeeds (Adjusted sample 2 90) (adjust (set_expire sample 2 90) 2)
adjust-Adjusted_example =
    adjust-Adjusted sample 2 90 sample-IsValid (omega arith) (omega arith, refl) (omega arith)

tick-Ticked_example : Succeeds (Ticked 25 sample []) (tick 25 sample)
tick-Ticked_example = tick-Ticked 25 sample sample-IsValid
