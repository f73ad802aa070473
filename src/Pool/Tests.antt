-- ===== src/Pool/Tests.antt =====
-- Two tasks with one thread in Append, and one worker.
use wslyh.Base.{Bool, [], arith, bad_delete, fault, leb, none, refl, true, ℕ, ◌∷◌, ◌≡◌, ◌≤◌}
use wslyh.Pool.{Pool, Reach, Step, destroy, idle_pool, start, too_much}
use wslyh.Pool.Queue.{parsed-pushed, tasks-bounded}
use wslyh.Pool.Start.{destroy-start}

abbrev one_parsed : Pool
one_parsed = record {
  tasks = 8 ∷ [];
  running = none;
  checked = [];
  pushed = 7 ∷ 8 ∷ [];
  parsed = 7 ∷ [];
}

run : Reach 1 idle_pool one_parsed
unfolding too_much
run =
    Reach.next
      (Reach.next
        (Reach.next
          (Reach.next
            (Reach.next (Reach.next Reach.here (Step.check 7 (omega arith) refl))
              (Step.push [] [] 7 refl refl))
            (Step.check 8 (omega arith) refl))
          (Step.push [] [] 8 refl refl))
        (Step.take 7 (8 ∷ []) refl refl))
      (Step.finish 7 refl)

tasks-bounded_example : 1 ≤ 100
tasks-bounded_example = tasks-bounded 1 run

parsed-pushed_example : one_parsed.pushed ≡ 7 ∷ 8 ∷ []
parsed-pushed_example = parsed-pushed 1 run

-- the second thread of four is not had
abbrev second_fails : ℕ → Bool
second_fails i = leb 2 i

destroy-start_example : destroy (start second_fails (λ i. true) 4).0 ≡ fault bad_delete
destroy-start_example = destroy-start second_fails (λ i. true) 4
