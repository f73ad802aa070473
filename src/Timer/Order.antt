-- ===== src/Timer/Order.antt =====
-- The invariant of the timer heap.
use wslyh.Base.{ℕ, ◌-◌, ◌/◌, ◌<◌, ◌≡◌, ◌≤◌}
use wslyh.Timer.{TimerHeap, expire}

abbrev pub parent : ℕ → ℕ
parent c = (c - 1) / 2

-- the expiry of the timer in slot `i`
abbrev pub key : TimerHeap → ℕ → ℕ
key h i = expire h (h.slots i)

-- Every slot in use holds a timer that knows its slot, and no timer expires before its parent.
pub record IsValid (h : TimerHeap) : Type 0 where
  pub bounded : h.cur_num ≤ h.capacity
  pub roomy : 0 < h.capacity
  pub present : (i : ℕ) → i < h.cur_num → 0 < h.slots i
  pub located : (i : ℕ) → i < h.cur_num → (h.timers (h.slots i)).pos ≡ i
  pub ordered : (c : ℕ) → 0 < c → c < h.cur_num → key h (parent c) ≤ key h c

-- Timer `t` is in the heap.
abbrev pub IsQueued : TimerHeap → ℕ → Type 0
IsQueued h t = ((h.timers t).pos < h.cur_num) × (h.slots (h.timers t).pos ≡ t)

-- The two heaps are over the same timers, but for their positions.
abbrev pub SameTimers : TimerHeap → TimerHeap → Type 0
SameTimers g h =
    (t : ℕ)
    → ((g.timers t).expire_time ≡ (h.timers t).expire_time)
      × ((g.timers t).has_callback ≡ (h.timers t).has_callback)
      × ((g.timers t).client_data ≡ (h.timers t).client_data)
