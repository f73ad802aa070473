-- ===== src/Timer/Rise.antt =====
-- The loop of AddTimer (http/timer.cpp) lifts the new timer to its place.
use wslyh.Base.{
  Bool-cases, Succeeds, Succeeds-weaken, arith, if◌then◌else◌, inl, inr, ltb, ok, refl, suc, zero,
  ℕ, ◌-◌, ◌/◌, ◌<◌, ◌==◌, ◌≡◌, ◌≢◌, ◌≤◌,
}
use wslyh.Timer.{TimerHeap, expire, load, placed, up_loop}
use wslyh.Timer.Order.{key, parent}
use wslyh.Timer.Exchange.{IsPlaced, IsQueued-after, after, after-IsPlaced, before, key-after}
use wslyh.Timer.Sift.{
  RisesAt, Settled, Settled-in_order, Settled-trans, load-ok, place-Succeeds, place-ok,
}

-- The order of the keys, `k` before a round from `i` to its parent `j` and `k'` after it.
module _ (k k' : ℕ → ℕ) (n i j : ℕ)
    (swapped : (x : ℕ) → k' x ≡ (if x == j then k i else if x == i then k j else k x)) (up : 0 < i)
    (within : i < n) (edge : parent i ≡ j)
    (edges : (c : ℕ) → 0 < c → c < n → c ≢ i → k (parent c) ≤ k c) where
  rise_edges :
      ((c : ℕ) → 0 < c → c < n → parent c ≡ i → 0 < i → k (parent i) ≤ k c)
      → k i ≤ k j
      → (c : ℕ) → 0 < c
      → c < n
      → c ≢ j
      → k' (parent c) ≤ k' c
  rise_edges bridged smaller c z l ne =
      rw (swapped (parent c), swapped c) (ground (arith, edges c, bridged c))

  rise_bridge : (c : ℕ) → 0 < c → c < n → parent c ≡ j → 0 < j → k' (parent j) ≤ k' c
  rise_bridge c z l e z' = rw (swapped (parent j), swapped c) (ground (arith, edges c, edges j))

-- a round that goes on
module _ (h : TimerHeap) (node t : ℕ) (inside : node < h.cur_num) (up : 0 < node)
    (inv : RisesAt (placed h node t) node) (smaller : expire h t ≤ key h (parent node)) where
  apart : node ≢ parent node
  apart = omega arith

  before_smaller :
      key (before h node (parent node) t apart) node
      ≤ key (before h node (parent node) t apart) (parent node)
  before_smaller = ground arith

  risen-RisesAt : RisesAt (after h node (parent node) t apart) (parent node)
  risen-RisesAt = record {
    spots = after-IsPlaced h node (parent node) t apart inv.spots inside (omega arith);
    edges =
        rise_edges _ _ h.cur_num node (parent node) (key-after h node (parent node) t apart) up
          inside refl inv.edges inv.bridged before_smaller;
    bridged =
        rise_bridge _ _ h.cur_num node (parent node) (key-after h node (parent node) t apart) up
          inside refl inv.edges;
  }

  risen-Settled :
      {h' : TimerHeap}
      → Settled (after h node (parent node) t apart) h'
      → Settled (placed h node t) h'
  risen-Settled =
      Settled-trans refl refl (λ u. ground arith)
        (IsQueued-after h node (parent node) t apart inv.spots inside (omega arith))

rest-Settled :
    (h : TimerHeap) (node t : ℕ)
    → RisesAt (placed h node t) node
    → (0 < node → key h (parent node) ≤ expire h t)
    → Settled (placed h node t) (placed h node t)
rest-Settled h node t inv over =
    Settled-in_order (placed h node t) inv.spots (λ c z l. ground (arith, inv.edges c z l))

load-parent :
    (h : TimerHeap) (node t : ℕ)
    → 0 < node
    → node < h.cur_num
    → IsPlaced (placed h node t)
    → load h ((node - 1) / 2) ≡ ok (h.slots (parent node))
load-parent h node t z l p =
    load-ok h (parent node) (omega (arith, p.bounded)) (ground (arith, p.present (parent node)))

pub up_loop-Settled :
    (k : ℕ) (h : TimerHeap) (node t : ℕ)
    → node < k
    → node < h.cur_num
    → RisesAt (placed h node t) node
    → Succeeds (Settled (placed h node t)) (up_loop k h node t)
unfolding up_loop
up_loop-Settled zero h node t f l inv = absurd (omega arith)
up_loop-Settled (suc k) h node t f l inv = elim (Bool-cases (ltb 0 node)) [
  | inr root ↦ rw root (
      place-Succeeds h node t (omega (arith, inv.spots.bounded))
        (rest-Settled h node t inv (λ z. absurd (ground arith))))
  | inl inner ↦
      let z : 0 < node = ground arith in
      rw (inner, load-parent h node t z l inv.spots)
        (elim (Bool-cases (ltb (expire h t) (key h (parent node)))) [
          | inr over ↦ rw over (
              place-Succeeds h node t (omega (arith, inv.spots.bounded))
                (rest-Settled h node t inv (λ _. ground arith)))
          | inl less ↦
              let smaller : expire h t ≤ key h (parent node) = ground arith in
              rw (less, place-ok h node (h.slots (parent node)) (omega (arith, inv.spots.bounded)))
                (Succeeds-weaken
                  (up_loop-Settled k (placed h node (h.slots (parent node))) (parent node) t
                    (omega arith) (omega arith) (risen-RisesAt h node t l z inv smaller))
                  (λ h' s. risen-Settled h node t l z inv smaller s))
        ])
]
