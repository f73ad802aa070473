-- ===== src/Timer/Sift.antt =====
-- HeapDown and the loop of AddTimer restore the order of the heap.
use wslyh.Base.{
  Bool-cases, Succeeds, Succeeds-weaken, arith, false, if◌then◌else◌, inl, inr, ltb, ok, refl, suc,
  succeeds, zero, ℕ, ◌*◌, ◌+◌, ◌<◌, ◌==◌, ◌↔◌, ◌∙◌, ◌≡◌, ◌≢◌, ◌≤◌, ◌⊎◌,
}
use wslyh.Timer.{TimerHeap, down_loop, expire, load, place, placed, smaller_child}
use wslyh.Timer.Order.{IsQueued, IsValid, SameTimers, key, parent}
use wslyh.Timer.Exchange.{
  IsPlaced, IsQueued-after, after, after-IsPlaced, before, key-after, sink_bridge, sink_edges,
}

-- `h` is a valid heap of the timers of `g`, in another order.
pub record Settled (g h : TimerHeap) : Type 0 where
  pub valid : IsValid h
  pub same_num : h.cur_num ≡ g.cur_num
  pub same_capacity : h.capacity ≡ g.capacity
  pub same_timers : SameTimers h g
  pub same_queue : (u : ℕ) → IsQueued g u ↔ IsQueued h u

pub Settled-trans :
    {f g h : TimerHeap}
    → g.cur_num ≡ f.cur_num
    → g.capacity ≡ f.capacity
    → SameTimers g f
    → ((u : ℕ) → IsQueued f u ↔ IsQueued g u)
    → Settled g h
    → Settled f h
Settled-trans n c s q r = record {
  valid = r.valid;
  same_num = r.same_num ∙ n;
  same_capacity = r.same_capacity ∙ c;
  same_timers = λ t. ground (arith, r.same_timers t, s t);
  same_queue = λ u. (λ x. (r.same_queue u).0 ((q u).0 x), λ x. (q u).1 ((r.same_queue u).1 x));
}

-- In order but for the edges from `node` to its children, over which the order is bridged.
pub record SinksAt (h : TimerHeap) (node : ℕ) : Type 0 where
  pub spots : IsPlaced h
  pub edges : (c : ℕ) → 0 < c → c < h.cur_num → parent c ≢ node → key h (parent c) ≤ key h c
  pub bridged :
      (c : ℕ) → 0 < c → c < h.cur_num → parent c ≡ node → 0 < node → key h (parent node) ≤ key h c

-- In order but for the edge from `node` to its parent.
pub record RisesAt (h : TimerHeap) (node : ℕ) : Type 0 where
  pub spots : IsPlaced h
  pub edges : (c : ℕ) → 0 < c → c < h.cur_num → c ≢ node → key h (parent c) ≤ key h c
  pub bridged :
      (c : ℕ) → 0 < c → c < h.cur_num → parent c ≡ node → 0 < node → key h (parent node) ≤ key h c

pub Settled-in_order :
    (h : TimerHeap)
    → IsPlaced h
    → ((c : ℕ) → 0 < c → c < h.cur_num → key h (parent c) ≤ key h c)
    → Settled h h
Settled-in_order h p o = record {
  valid = record {
    bounded = p.bounded;
    roomy = p.roomy;
    present = p.present;
    located = p.located;
    ordered = o;
  };
  same_num = refl;
  same_capacity = refl;
  same_timers = λ t. (refl, refl, refl);
  same_queue = λ u. (λ x. x, λ x. x);
}

pub place-ok : (h : TimerHeap) (i t : ℕ) → i < h.capacity → place h i t ≡ ok (placed h i t)
unfolding place
place-ok h i t l = ground arith

pub load-ok : (h : TimerHeap) (i : ℕ) → i < h.capacity → 0 < h.slots i → load h i ≡ ok (h.slots i)
unfolding load
load-ok h i l e = ground arith

-- the child that smaller_child finds
abbrev least_child : TimerHeap → ℕ → ℕ
least_child h node =
    let left = node * 2 + 1 in
    if ltb (left + 1) h.cur_num
    then (if ltb (key h (left + 1)) (key h left) then left + 1 else left)
    else left

module _ (h : TimerHeap) (node t : ℕ) (inside : node < h.cur_num)
    (spots : IsPlaced (placed h node t)) where
  load-other : (i : ℕ) → i < h.cur_num → i ≢ node → load h i ≡ ok (h.slots i)
  load-other i l e = load-ok h i (omega (arith, spots.bounded)) (ground (arith, spots.present i l))

  smaller_child-least : node * 2 + 1 < h.cur_num → smaller_child h node ≡ ok (least_child h node)
  unfolding smaller_child
  smaller_child-least l = elim (Bool-cases (ltb (node * 2 + 1 + 1) h.cur_num)) [
    | inl two ↦ rw (
      two,
      load-other (node * 2 + 1 + 1) (ground arith) (omega arith),
      load-other (node * 2 + 1) l (omega arith),
    )
    | inr one ↦ rw one
  ]

  least_child-child :
      node * 2 + 1 < h.cur_num
      → (parent (least_child h node) ≡ node)
        × (node < least_child h node)
        × (least_child h node < h.cur_num)
  least_child-child l = ground arith

  -- a child is the left one or the right one
  child_cases : (c : ℕ) → 0 < c → parent c ≡ node → (c ≡ node * 2 + 1) ⊎ (c ≡ node * 2 + 1 + 1)
  child_cases c z e = omega arith

  least_child-least :
      (c : ℕ)
      → node * 2 + 1 < h.cur_num
      → 0 < c
      → c < h.cur_num
      → parent c ≡ node
      → key h (least_child h node) ≤ key h c
  least_child-least c l z m e = elim (child_cases c z e) [
    | inl left ↦ rw left (ground arith)
    | inr right ↦ rw right (ground arith)
  ]

-- a round of HeapDown that goes on
module _ (h : TimerHeap) (node j t : ℕ) (inside : node < h.cur_num) (below : node < j)
    (within : j < h.cur_num) (edge : parent j ≡ node) (inv : SinksAt (placed h node t) node)
    (least : (c : ℕ) → 0 < c → c < h.cur_num → parent c ≡ node → key h j ≤ key h c)
    (smaller : key h j < expire h t) where
  apart : node ≢ j
  apart = omega arith

  key-before :
      (x : ℕ) → key (before h node j t apart) x ≡ (if x == node then expire h t else key h x)
  key-before x = ground arith

  before_least :
      (c : ℕ)
      → 0 < c
      → c < h.cur_num
      → parent c ≡ node
      → key (before h node j t apart) j ≤ key (before h node j t apart) c
  before_least c z l e = rw (key-before c, key-before j) (ground (arith, least c))

  before_smaller : key (before h node j t apart) j ≤ key (before h node j t apart) node
  before_smaller = rw (key-before node, key-before j) (ground arith)

  sunk-SinksAt : SinksAt (after h node j t apart) j
  sunk-SinksAt = record {
    spots = after-IsPlaced h node j t apart inv.spots inside within;
    edges =
        sink_edges _ _ h.cur_num node j (key-after h node j t apart) inv.edges inv.bridged
          before_least below within edge before_smaller;
    bridged =
        sink_bridge _ _ h.cur_num node j (key-after h node j t apart) inv.edges below within edge;
  }

  sunk-Settled :
      {h' : TimerHeap} → Settled (after h node j t apart) h' → Settled (placed h node t) h'
  sunk-Settled =
      Settled-trans refl refl (λ u. ground arith)
        (IsQueued-after h node j t apart inv.spots inside within)

-- the last round of HeapDown
module _ (h : TimerHeap) (node t : ℕ) (inv : SinksAt (placed h node t) node) where
  stop-Settled :
      ((c : ℕ) → 0 < c → c < h.cur_num → parent c ≡ node → expire h t ≤ key h c)
      → Settled (placed h node t) (placed h node t)
  stop-Settled over =
      Settled-in_order (placed h node t) inv.spots
        (λ c z l. ground (arith, inv.edges c z l, over c z l))

pub place-Succeeds :
    (h : TimerHeap) (node t : ℕ)
    → node < h.capacity
    → Settled (placed h node t) (placed h node t)
    → Succeeds (Settled (placed h node t)) (place h node t)
place-Succeeds h node t l s = rw (place-ok h node t l) (succeeds s)

pub down_loop-Settled :
    (k : ℕ) (h : TimerHeap) (node t : ℕ)
    → h.cur_num < k + node
    → node < h.cur_num
    → SinksAt (placed h node t) node
    → Succeeds (Settled (placed h node t)) (down_loop k h node t)
unfolding down_loop
down_loop-Settled zero h node t f l inv = absurd (omega arith)
down_loop-Settled (suc k) h node t f l inv = elim (Bool-cases (ltb (node * 2 + 1) h.cur_num)) [
  | inr leaf ↦ rw leaf (
      place-Succeeds h node t (omega (arith, inv.spots.bounded))
        (stop-Settled h node t inv (λ c z m e. absurd (ground arith))))
  | inl inner ↦
      let has : node * 2 + 1 < h.cur_num = ground arith in
      let j = least_child h node in
      let (edge, below, within) = least_child-child h node t l inv.spots has in
      let least = λ (c : ℕ). least_child-least h node t l inv.spots c has in
      rw
        (
          inner,
          smaller_child-least h node t l inv.spots has,
          load-other h node t l inv.spots j within (omega arith),
        )
        (elim (Bool-cases (ltb (key h j) (expire h t))) [
          | inr over ↦ rw over (
              place-Succeeds h node t (omega (arith, inv.spots.bounded))
                (stop-Settled h node t inv (λ c z m e. ground (arith, least c z m e))))
          | inl less ↦
              let smaller : key h j < expire h t = ground arith in
              rw (less, place-ok h node (h.slots j) (omega (arith, inv.spots.bounded)))
                (Succeeds-weaken
                  (down_loop-Settled k (placed h node (h.slots j)) j t (omega arith) within
                    (sunk-SinksAt h node j t l below within edge inv least smaller))
                  (λ h' s. sunk-Settled h node j t l below within edge inv least smaller s))
        ])
]

-- with no child the loop ends at once
pub down_loop-leaf :
    (k : ℕ) (h : TimerHeap) (node t : ℕ)
    → 0 < k
    → h.cur_num ≤ node * 2 + 1
    → node < h.capacity
    → Settled (placed h node t) (placed h node t)
    → Succeeds (Settled (placed h node t)) (down_loop k h node t)
unfolding down_loop
down_loop-leaf zero h node t z l r s = absurd (omega arith)
down_loop-leaf (suc k) h node t z l r s =
    let leaf : ltb (node * 2 + 1) h.cur_num ≡ false = ground arith in
    rw leaf (place-Succeeds h node t r s)
