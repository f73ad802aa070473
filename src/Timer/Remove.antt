-- ===== src/Timer/Remove.antt =====
-- PopTimer (http/timer.cpp).
use wslyh.Base.{
  Bool-cases, Succeeds, Succeeds-weaken, arith, inl, inr, ok, suc, update, zero, ℕ, ◌+◌, ◌-◌, ◌<◌,
  ◌==◌, ◌↔◌, ◌≡◌, ◌≢◌, ◌≤◌,
}
use wslyh.Timer.{TimerHeap, down_loop, expire, heap_down, peek, placed, pop_timer}
use wslyh.Timer.Order.{IsQueued, IsValid, SameTimers, key, parent}
use wslyh.Timer.Exchange.{IsPlaced}
use wslyh.Timer.Sift.{
  Settled, Settled-in_order, SinksAt, down_loop-Settled, down_loop-leaf, load-ok,
}

root_least_below :
    (k : ℕ) (h : TimerHeap) (i : ℕ) → IsValid h → i < k → i < h.cur_num → key h 0 ≤ key h i
root_least_below zero h i v f l = absurd (omega arith)
root_least_below (suc k) h i v f l = ground (arith, v.ordered i, root_least_below k h (parent i) v)

-- The timer in slot 0 expires first.
pub root_least : (h : TimerHeap) (u : ℕ) → IsValid h → IsQueued h u → key h 0 ≤ expire h u
root_least h u v q =
    rw (q.1) at (root_least_below (suc (h.timers u).pos) h (h.timers u).pos v (omega arith) q.0)

-- What PopTimer leaves of a heap with a timer.
pub record Popped (h h' : TimerHeap) : Type 0 where
  pub valid : IsValid h'
  pub one_less : h'.cur_num + 1 ≡ h.cur_num
  pub same_timers : SameTimers h' h
  pub queued : (u : ℕ) → IsQueued h' u ↔ (IsQueued h u × (u ≢ h.slots 0))
  pub least : (u : ℕ) → IsQueued h u → expire h (h.slots 0) ≤ expire h u

-- the heap that PopTimer hands to HeapDown
abbrev shrunk : TimerHeap → TimerHeap
shrunk h = record h { cur_num = h.cur_num - 1; slots = update h.slots 0 (h.slots (h.cur_num - 1)) }

module _ (h : TimerHeap) (v : IsValid h) (some_left : 0 < h.cur_num) where
  abbrev last : ℕ
  last = h.slots (h.cur_num - 1)

  shrunk-IsPlaced : IsPlaced (placed (shrunk h) 0 last)
  shrunk-IsPlaced = record {
    bounded = omega (arith, v.bounded);
    roomy = v.roomy;
    present = λ x l. ground (arith, v.present x, v.present (h.cur_num - 1));
    located = λ x l. ground (arith, v.located x, v.located (h.cur_num - 1));
  }

  shrunk-IsQueued :
      (u : ℕ) → IsQueued (placed (shrunk h) 0 last) u ↔ (IsQueued h u × (u ≢ h.slots 0))
  shrunk-IsQueued u = (
    ground (arith, v.located (h.cur_num - 1), v.located 0, v.located (h.timers u).pos),
    ground (arith, v.located (h.cur_num - 1), v.located 0),
  )

  Settled-Popped : {h' : TimerHeap} → Settled (placed (shrunk h) 0 last) h' → Popped h h'
  Settled-Popped s = record {
    valid = s.valid;
    one_less = omega (arith, s.same_num);
    same_timers = λ u. ground (arith, s.same_timers u);
    queued = λ u. (
      λ x. (shrunk-IsQueued u).0 ((s.same_queue u).1 x),
      λ x. (s.same_queue u).0 ((shrunk-IsQueued u).1 x),
    );
    least = λ u q. root_least h u v q;
  }

  shrunk-SinksAt : SinksAt (placed (shrunk h) 0 last) 0
  shrunk-SinksAt = record {
    spots = shrunk-IsPlaced;
    edges = λ c z l ne. ground (arith, v.ordered c);
    bridged = λ c z l e z'. absurd (omega arith);
  }

  -- with no timer left the loop stops at once
  down_loop-shrunk :
      Succeeds
        (Settled (placed (shrunk h) 0 last))
        (down_loop (h.cur_num - 1 + 1) (shrunk h) 0 last)
  down_loop-shrunk = elim (Bool-cases (h.cur_num == 1)) [
    | inl single ↦
        down_loop-leaf (h.cur_num - 1 + 1) (shrunk h) 0 last (omega arith) (ground arith) v.roomy
          (Settled-in_order _ shrunk-IsPlaced (λ c z l. absurd (ground arith)))
    | inr more ↦
        down_loop-Settled (h.cur_num - 1 + 1) (shrunk h) 0 last (omega arith) (ground arith)
          shrunk-SinksAt
  ]

  pop_timer-ok : pop_timer h ≡ down_loop (h.cur_num - 1 + 1) (shrunk h) 0 last
  unfolding pop_timer peek heap_down
  pop_timer-ok = ground (
    arith,
    load-ok (shrunk h) 0 v.roomy (v.present (h.cur_num - 1) (omega arith)),
    v.present 0,
    v.bounded,
  )

  -- PopTimer of a valid heap with a timer removes the timer in slot 0, which none expires before.
  -- The others stay as they were but for their slots, and the heap is valid.
  pub pop_timer-Popped : Succeeds (Popped h) (pop_timer h)
  pop_timer-Popped = rw pop_timer-ok (Succeeds-weaken down_loop-shrunk (λ h' s. Settled-Popped s))

-- PopTimer of an empty heap does nothing.
pub pop_timer-empty : (h : TimerHeap) → h.cur_num ≡ 0 → pop_timer h ≡ ok h
unfolding pop_timer
pop_timer-empty h e = ground arith
