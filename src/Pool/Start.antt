-- ===== src/Pool/Start.antt =====
-- The array of threads, from the constructor to the destructor.
use wslyh.Base.{
  Bool, arith, bad_delete, fault, if◌then◌else◌, leb, ok, refl, suc, true, zero, ℕ, ◌&&◌, ◌+◌, ◌≡◌,
}
use wslyh.Pool.{destroy, max_thread_num, start, start_loop}

-- whether the threads from `i` on, `rounds` of them, are had
abbrev pub all_had : (ℕ → Bool) → (ℕ → Bool) → ℕ → ℕ → Bool
all_had create detach zero i = true
all_had create detach (suc rounds) i = create i && detach i && all_had create detach rounds (i + 1)

module _ (create detach : ℕ → Bool) where
  destroy-start_loop :
      (rounds n i : ℕ)
      → destroy (start_loop create detach rounds n i).0
        ≡ (if all_had create detach rounds i then ok tt else fault bad_delete)
  unfolding start_loop destroy
  destroy-start_loop zero n i = refl
  destroy-start_loop (suc rounds) n i = let ih = destroy-start_loop rounds n (i + 1) in ground arith

  -- The destructor deletes the array once, and only an array, exactly when no more than 16 threads
  -- were asked for and each of them was created and detached. In every other case it deletes a pointer
  -- that was never assigned, or the array a second time.
  pub destroy-start :
      (thread_num : ℕ)
      → destroy (start create detach thread_num).0 ≡ (
          if leb thread_num max_thread_num && all_had create detach thread_num 0
          then ok tt
          else fault bad_delete)
  unfolding start destroy
  destroy-start n = let h = destroy-start_loop n n 0 in ground arith
