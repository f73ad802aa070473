-- ===== src/Timer/Insert.antt =====
-- AddTimer and Resize (http/timer.cpp).
use wslyh.Base.{
  Bool-cases, Succeeds, Succeeds-weaken, arith, false, inl, inr, leb, refl, ℕ, ◌+◌, ◌<◌, ◌==◌, ◌↔◌,
  ◌≡◌, ◌≢◌, ◌⊎◌,
}
use wslyh.Timer.{TimerHeap, add_timer, placed, resize, up_loop}
use wslyh.Timer.Order.{IsQueued, IsValid, SameTimers}
use wslyh.Timer.Exchange.{IsPlaced}
use wslyh.Timer.Sift.{RisesAt, Settled}
use wslyh.Timer.Rise.{up_loop-Settled}

-- What AddTimer of `t` leaves.
pub record Added (h : TimerHeap) (t : ℕ) (h' : TimerHeap) : Type 0 where
  pub valid : IsValid h'
  pub one_more : h'.cur_num ≡ h.cur_num + 1
  pub same_timers : SameTimers h' h
  pub queued : (u : ℕ) → IsQueued h' u ↔ (IsQueued h u ⊎ (u ≡ t))

-- the heap that the loop starts with
abbrev grown : TimerHeap → TimerHeap
grown h = record h { cur_num = h.cur_num + 1 }

module _ (h : TimerHeap) (t : ℕ) (v : IsValid h) (real : 0 < t) (fresh : ¬ IsQueued h t)
    (room : h.cur_num < h.capacity) where
  fresh_slot : (x : ℕ) → x < h.cur_num → h.slots x ≢ t
  fresh_slot x l e = fresh (rw (← e) (rw (v.located x l) (l, refl)))

  grown-IsPlaced : IsPlaced (placed (grown h) h.cur_num t)
  grown-IsPlaced = record {
    bounded = omega arith;
    roomy = v.roomy;
    present = λ x l. ground (arith, v.present x);
    located = λ x l. ground (arith, v.located x, fresh_slot x);
  }

  grown-RisesAt : RisesAt (placed (grown h) h.cur_num t) h.cur_num
  grown-RisesAt = record {
    spots = grown-IsPlaced;
    edges = λ c z l ne. ground (arith, v.ordered c);
    bridged = λ c z l e z'. absurd (omega arith);
  }

  grown-IsQueued : (u : ℕ) → IsQueued (placed (grown h) h.cur_num t) u ↔ (IsQueued h u ⊎ (u ≡ t))
  grown-IsQueued u = (ground arith, ground (arith, fresh))

  Settled-Added : {h' : TimerHeap} → Settled (placed (grown h) h.cur_num t) h' → Added h t h'
  Settled-Added s = record {
    valid = s.valid;
    one_more = s.same_num;
    same_timers = λ u. ground (arith, s.same_timers u);
    queued = λ u. (
      λ x. (grown-IsQueued u).0 ((s.same_queue u).1 x),
      λ x. (s.same_queue u).0 ((grown-IsQueued u).1 x),
    );
  }

  insert_with_room : Succeeds (Added h t) (up_loop (h.cur_num + 1) (grown h) h.cur_num t)
  insert_with_room =
      Succeeds-weaken
        (up_loop-Settled (h.cur_num + 1) (grown h) h.cur_num t (omega arith) (omega arith)
          grown-RisesAt)
        (λ h' s. Settled-Added s)

-- Resize keeps the timers of the heap and makes room for one more.
resize_lem :
    (h : TimerHeap)
    → IsValid h
    → IsValid (resize h)
      × (h.cur_num < (resize h).capacity)
      × ((u : ℕ) → IsQueued (resize h) u ↔ IsQueued h u)
unfolding resize
resize_lem h v = (
  record {
    bounded = omega (arith, v.bounded);
    roomy = omega (arith, v.roomy);
    present = λ i l. ground (arith, v.present i);
    located = λ i l. ground (arith, v.located i);
    ordered = λ c z l. ground (arith, v.ordered c);
  },
  omega (arith, v.bounded, v.roomy),
  λ u. (ground arith, ground arith),
)

Added-resize :
    (h : TimerHeap) (t : ℕ) (h' : TimerHeap) → IsValid h → Added (resize h) t h' → Added h t h'
unfolding resize
Added-resize h t h' v a = record {
  valid = a.valid;
  one_more = a.one_more;
  same_timers = a.same_timers;
  queued = λ u. ground (arith, a.queued u, (resize_lem h v).2 u);
}

-- AddTimer of a timer that is not in a valid heap leaves a valid heap of one timer more: that timer
-- and those that were there, with their expiry times, callbacks and client data as they were. The
-- array grows where it is full, and no access is out of it or through a null pointer.
pub add_timer-Added :
    (h : TimerHeap) (t : ℕ)
    → IsValid h
    → 0 < t
    → ¬ IsQueued h t
    → Succeeds (Added h t) (add_timer h t)
unfolding add_timer
add_timer-Added h t v real fresh = elim (Bool-cases (leb h.capacity h.cur_num)) [
  | inr room ↦ rw (non_null, room) (insert_with_room h t v real fresh (ground arith))
  | inl full ↦
      let (v', room, same) = resize_lem h v in
      rw (non_null, full)
        (Succeeds-weaken
          (insert_with_room (resize h) t v' real (λ q. fresh ((same t).0 q))
            (rw cur_num-resize room))
          (λ h' a. Added-resize h t h' v a))
]
  where
    non_null : (t == 0) ≡ false
    non_null = ground arith

    cur_num-resize : (resize h).cur_num ≡ h.cur_num
    cur_num-resize = unfold resize in refl
