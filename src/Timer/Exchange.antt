-- ===== src/Timer/Exchange.antt =====
-- One round of a loop of the heap: the timer `t` that is out of slot `i` goes on to slot `j`, and
-- the timer of slot `j` takes slot `i`.
use wslyh.Base.{arith, if◌then◌else◌, ℕ, ◌<◌, ◌==◌, ◌↔◌, ◌≡◌, ◌≢◌, ◌≤◌}
use wslyh.Timer.{TimerHeap, expire, placed}
use wslyh.Timer.Order.{IsQueued, SameTimers, key, parent}

-- The slots in use hold timers that know their slots.
pub record IsPlaced (h : TimerHeap) : Type 0 where
  pub bounded : h.cur_num ≤ h.capacity
  pub roomy : 0 < h.capacity
  pub present : (i : ℕ) → i < h.cur_num → 0 < h.slots i
  pub located : (i : ℕ) → i < h.cur_num → (h.timers (h.slots i)).pos ≡ i

pub expire-placed : (h : TimerHeap) (i t u : ℕ) → expire (placed h i t) u ≡ expire h u
expire-placed h i t u = ground arith

pub SameTimers-placed : (g h : TimerHeap) (i t : ℕ) → SameTimers g h → SameTimers g (placed h i t)
SameTimers-placed g h i t s u = ground (arith, s u)

module _ (h : TimerHeap) (i j t : ℕ) (apart : i ≢ j) where
  abbrev pub before : TimerHeap
  before = placed h i t

  abbrev pub after : TimerHeap
  after = placed (placed h i (h.slots j)) j t

  pub key-after :
      (x : ℕ)
      → key after x
        ≡ (if x == j then key before i else if x == i then key before j else key before x)
  key-after x = ground arith

  module _ (p : IsPlaced before) (hi : i < h.cur_num) (hj : j < h.cur_num) where
    pub after-IsPlaced : IsPlaced after
    after-IsPlaced = record {
      bounded = p.bounded;
      roomy = p.roomy;
      present = λ x l. ground (arith, p.present x l, p.present i hi, p.present j hj);
      located = λ x l. ground (arith, p.located x l, p.located i hi, p.located j hj);
    }

    pub IsQueued-after : (u : ℕ) → IsQueued before u ↔ IsQueued after u
    IsQueued-after u = (
      ground (arith, p.located i hi, p.located j hj),
      ground (arith, p.located i hi, p.located j hj),
    )

-- The order of the keys, `k` before the round and `k'` after it.
module _ (k k' : ℕ → ℕ) (n i j : ℕ)
    (swapped : (x : ℕ) → k' x ≡ (if x == j then k i else if x == i then k j else k x)) where
  pub sink_edges :
      ((c : ℕ) → 0 < c → c < n → parent c ≢ i → k (parent c) ≤ k c)
      → ((c : ℕ) → 0 < c → c < n → parent c ≡ i → 0 < i → k (parent i) ≤ k c)
      → ((c : ℕ) → 0 < c → c < n → parent c ≡ i → k j ≤ k c)
      → i < j
      → j < n
      → parent j ≡ i
      → k j ≤ k i
      → (c : ℕ) → 0 < c
      → c < n
      → parent c ≢ j
      → k' (parent c) ≤ k' c
  sink_edges edges bridged least below within edge smaller c z l ne =
      rw (swapped (parent c), swapped c) (ground (arith, edges c, bridged j, least c))

  pub sink_bridge :
      ((c : ℕ) → 0 < c → c < n → parent c ≢ i → k (parent c) ≤ k c)
      → i < j
      → j < n
      → parent j ≡ i
      → (c : ℕ) → 0 < c
      → c < n
      → parent c ≡ j
      → 0 < j
      → k' (parent j) ≤ k' c
  sink_bridge edges below within edge c z l e z' =
      rw (swapped (parent j), swapped c) (ground (arith, edges c))
