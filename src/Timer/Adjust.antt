-- ===== src/Timer/Adjust.antt =====
-- Adjust and DelTimer (http/timer.cpp).
use wslyh.Base.{Succeeds, Succeeds-weaken, arith, false, update, ℕ, ◌+◌, ◌<◌, ◌↔◌, ◌≡◌, ◌≢◌, ◌≤◌}
use wslyh.Timer.{TimerHeap, adjust, del_timer, down_loop, expire, heap_down, placed}
use wslyh.Timer.Order.{IsQueued, IsValid, SameTimers, parent}
use wslyh.Timer.Exchange.{IsPlaced}
use wslyh.Timer.Sift.{Settled, SinksAt, down_loop-Settled, load-ok}

-- the store after `t->m_iExpireTime = e`
abbrev pub set_expire : TimerHeap → ℕ → ℕ → TimerHeap
set_expire h t e = record h { timers = update h.timers t (record (h.timers t) { expire_time = e }) }

-- What Adjust of `t`, whose expiry is now `e`, leaves.
pub record Adjusted (h : TimerHeap) (t e : ℕ) (h' : TimerHeap) : Type 0 where
  pub valid : IsValid h'
  pub same_num : h'.cur_num ≡ h.cur_num
  pub same_timers : SameTimers h' (set_expire h t e)
  pub queued : (u : ℕ) → IsQueued h' u ↔ IsQueued h u

module _ (h : TimerHeap) (t e : ℕ) (v : IsValid h) (real : 0 < t) (q : IsQueued h t)
    (later : expire h t ≤ e) where
  abbrev node : ℕ
  node = (h.timers t).pos

  abbrev late : TimerHeap
  late = set_expire h t e

  late-IsPlaced : IsPlaced (placed late node t)
  late-IsPlaced = record {
    bounded = v.bounded;
    roomy = v.roomy;
    present = λ x l. ground (arith, v.present x);
    located = λ x l. ground (arith, v.located x);
  }

  late-SinksAt : SinksAt (placed late node t) node
  late-SinksAt = record {
    spots = late-IsPlaced;
    edges = λ c z l ne. ground (arith, v.ordered c, v.located c, v.located (parent c), q.1);
    bridged = λ c z l m z'.
        ground (arith, v.ordered c, v.ordered node, v.located c, v.located (parent node), q.0, q.1);
  }

  Settled-Adjusted : {h' : TimerHeap} → Settled (placed late node t) h' → Adjusted h t e h'
  Settled-Adjusted s = record {
    valid = s.valid;
    same_num = s.same_num;
    same_timers = λ u. ground (arith, s.same_timers u);
    queued = λ u. ground (arith, s.same_queue u, q.1);
  }

  adjust-ok : adjust (set_expire h t e) t ≡ down_loop (h.cur_num + 1) late node t
  unfolding adjust heap_down
  adjust-ok = ground (arith, load-ok late node (omega (arith, q.0, v.bounded)) (rw q.1 real), q.1)

  -- Adjust of a timer of a valid heap, after its expiry was put off, leaves a valid heap of the same
  -- timers, with that expiry.
  pub adjust-Adjusted : Succeeds (Adjusted h t e) (adjust (set_expire h t e) t)
  adjust-Adjusted = rw adjust-ok (
      Succeeds-weaken (down_loop-Settled (h.cur_num + 1) late node t (omega arith) q.0 late-SinksAt)
        (λ h' s. Settled-Adjusted s))

-- DelTimer takes the callback of a timer away, and leaves the heap and the other timers as they
-- were: the timer stays in the heap until Tick pops it.
pub del_timer_lem :
    (h : TimerHeap) (t : ℕ)
    → IsValid h
    → 0 < t
    → IsValid (del_timer h t)
      × ((del_timer h t).timers t).has_callback ≡ false
      × ((u : ℕ) → IsQueued (del_timer h t) u ↔ IsQueued h u)
unfolding del_timer
del_timer_lem h t v real = (
  record {
    bounded = ground (arith, v.bounded);
    roomy = ground (arith, v.roomy);
    present = λ i l. ground (arith, v.present i);
    located = λ i l. ground (arith, v.located i);
    ordered = λ c z l. ground (arith, v.ordered c);
  },
  ground arith,
  λ u. (ground arith, ground arith),
)

pub del_timer-other : (h : TimerHeap) (t u : ℕ) → u ≢ t → (del_timer h t).timers u ≡ h.timers u
unfolding del_timer
del_timer-other h t u d = ground arith
