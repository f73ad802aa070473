-- ===== src/Server/Watch.antt =====
-- Each connection is watched by a timer of the heap.
use wslyh.Http.Transfer.{Progress, Received, read}
use wslyh.Pool.{too_much}
use wslyh.Timer.Adjust.{Adjusted, adjust-Adjusted, del_timer_lem, set_expire}
use wslyh.Timer.Insert.{Added, add_timer-Added}
use wslyh.Base.{
  List, Outcome, Succeeds, [], add_ℕ, ap, arith, false, fault, if◌then◌else◌, inl, inr, leb,
  null_pointer, ok, refl, sym, true, update, ℕ, ◌++◌, ◌+◌, ◌-◌, ◌/◌, ◌<◌, ◌==◌, ◌>>=◌, ◌↔◌, ◌∙◌,
  ◌∷◌, ◌≡◌, ◌≢◌, ◌≤◌,
}
use wslyh.Http.{Http, add_fd, init_http}
use wslyh.Timer.{Timer, TimerHeap, add_timer, adjust, expire}
use wslyh.Timer.Order.{IsQueued, IsValid}
use wslyh.Server.{
  Server, after_failed_read, after_read, append_task, call_back, call_timer, is_busy, max_fd,
  new_timer, on_accept, on_closed, on_readable, put_off,
}
use mathlib.Core.Path.{subst}

pub Succeeds-both :
    {A : Type 0} (P Q : A → Type 0) (o : Outcome A)
    → Succeeds P o
    → Succeeds Q o
    → Succeeds (λ v. P v × Q v) o
Succeeds-both P Q _ (Succeeds.succeeds p) (Succeeds.succeeds q) = Succeeds.succeeds (p, q)

pub Succeeds-then :
    {A B : Type 0} (P : A → Type 0) (Q : B → Type 0) (o : Outcome A) (f : A → B)
    → Succeeds P o
    → ((v : A) → P v → Q (f v))
    → Succeeds Q (o >>= λ v. ok (f v))
Succeeds-then P Q _ f (Succeeds.succeeds {v = v} h) k = Succeeds.succeeds (k v h)

-- The connection's timer is in the heap, and expires at `e` with a callback for the connection.
pub record IsWatched (fd e : ℕ) (s : Server) : Type 0 where
  pub valid : IsValid s.heap
  pub real : 0 < s.timer_of fd
  pub queued : IsQueued s.heap (s.timer_of fd)
  pub due : expire s.heap (s.timer_of fd) ≡ e
  pub calls : (s.heap.timers (s.timer_of fd)).has_callback ≡ true
  pub client : (s.heap.timers (s.timer_of fd)).client_data ≡ fd

-- a timer at an address that the heap does not use
module _ (h : TimerHeap) (address : ℕ) (timer : Timer) (valid : IsValid h)
    (fresh : ¬ IsQueued h address) where
  abbrev pub stored : TimerHeap
  stored = record h { timers = update h.timers address timer }

  slot-apart : (i : ℕ) → i < h.cur_num → h.slots i ≢ address
  slot-apart i l e =
      let p : (h.timers address).pos ≡ i = ap (λ a. (h.timers a).pos) (sym e) ∙ valid.located i l in
      fresh (omega (arith, p, l), ap h.slots p ∙ e)

  same_timer : (i : ℕ) → i < h.cur_num → stored.timers (h.slots i) ≡ h.timers (h.slots i)
  same_timer i l = let d = slot-apart i l in ground arith

  pub IsValid-stored : IsValid stored
  IsValid-stored = record {
    bounded = valid.bounded;
    roomy = valid.roomy;
    present = valid.present;
    located = λ i l. ap (λ (t : Timer). t.pos) (same_timer i l) ∙ valid.located i l;
    ordered = λ c z l.
        let low : (c - 1) / 2 < h.cur_num = omega arith in
        let a = ap (λ (t : Timer). t.expire_time) (same_timer ((c - 1) / 2) low) in
        let b = ap (λ (t : Timer). t.expire_time) (same_timer c l) in
        omega (arith, a, b, valid.ordered c z l);
  }

  pub stored-fresh : timer.pos ≡ 0 → ¬ IsQueued stored address
  stored-fresh z q =
      let e : stored.timers address ≡ timer = ground arith in
      let p : (stored.timers address).pos ≡ 0 = ap (λ (t : Timer). t.pos) e ∙ z in
      slot-apart 0 (omega (arith, p, q.0)) (ap h.slots (sym p) ∙ q.1)

  pub stored-kept : (u : ℕ) → IsQueued h u → IsQueued stored u
  stored-kept u q =
      let d : u ≢ address = λ e. fresh (subst (IsQueued h) e q) in
      let e : stored.timers u ≡ h.timers u = ground arith in
      subst (λ (t : Timer). (t.pos < h.cur_num) × (h.slots t.pos ≡ u)) (sym e) q

-- What the event loop does with a connection that accept gives, with fewer than 65536 connections, a
-- descriptor below 65536, a heap in order, and a timer at an address that is not in use: the connection is initialized and
-- counted, and watched by a timer that expires 15 seconds later; the other timers stay in the heap.
pub on_accept-IsWatched :
    (connfd address now : ℕ) (s : Server)
    → is_busy s.world.http_cnt ≡ false
    → leb max_fd connfd ≡ false
    → IsValid s.heap
    → 0 < address
    → ¬ IsQueued s.heap address
    → Succeeds
        (λ t.
          IsWatched connfd (now + 15) t
          × (t.https connfd ≡ (init_http connfd false (s.https connfd) s.world).0)
          × (t.world.http_cnt ≡ add_ℕ s.world.http_cnt 1)
          × ((u : ℕ) → IsQueued s.heap u → IsQueued t.heap u))
        (on_accept connfd address now s)
unfolding on_accept init_http add_fd
on_accept-IsWatched connfd address now s room small valid real fresh =
    let stored : TimerHeap = record s.heap {
      timers = update s.heap.timers address (new_timer now connfd);
    } in
    rw (room, small)
      (Succeeds-then (Added stored address) _ (add_timer stored address) _
        (add_timer-Added stored address
          (IsValid-stored s.heap address (new_timer now connfd) valid fresh) real
          (stored-fresh s.heap address (new_timer now connfd) valid fresh refl))
        (λ heap' a.
          let e : update s.timer_of connfd address connfd ≡ address = ground arith in
          let t0 : stored.timers address ≡ new_timer now connfd = ground arith in
          let same = a.same_timers address in
          (
            record {
              valid = a.valid;
              real = rw e real;
              queued = rw e ((a.queued address).1 (inr refl));
              due = rw e (same.0 ∙ ap (λ (t : Timer). t.expire_time) t0);
              calls = rw e (same.1 ∙ ap (λ (t : Timer). t.has_callback) t0);
              client = rw e (same.2 ∙ ap (λ (t : Timer). t.client_data) t0);
            },
            ground arith,
            refl,
            λ u q.
                (a.queued u).1
                  (inl (stored-kept s.heap address (new_timer now connfd) valid fresh u q)),
          )))

module _ (fd e now : ℕ) (s : Server) (w : IsWatched fd e s) (h : Http)
    (events : List Received) where
  -- what a call of Read that gave true leads to
  abbrev pub IsKept : Server → Type 0
  IsKept t =
      IsWatched fd (now + 15) t
      × (t.https fd ≡ h)
      × (t.world ≡ s.world)
      × (t.tasks ≡ (if too_much s.tasks then s.tasks else s.tasks ++ fd ∷ []))
      × ((u : ℕ) → IsQueued t.heap u ↔ IsQueued s.heap u)

  -- what a call of Read that gave false leads to
  abbrev pub IsClosed : Server → Type 0
  IsClosed t =
      (t.world ≡ (call_back fd s).world)
      × IsValid t.heap
      × IsQueued t.heap (t.timer_of fd)
      × ((t.heap.timers (t.timer_of fd)).has_callback ≡ false)
      × (on_closed fd t ≡ fault null_pointer)

  -- A connection that is watched and whose Read gives true: the connection has what was read, it is
  -- put into the pool's queue where that has fewer than 100 tasks, nothing is closed, and the
  -- connection is watched until 15 seconds from now; no timer leaves the heap or comes into it.
  pub on_readable-IsKept :
      read events (s.https fd) ≡ (h, Progress.returned true)
      → e ≤ now + 15
      → Succeeds IsKept (on_readable fd events now s)
  unfolding on_readable append_task put_off
  on_readable-IsKept got later =
      let timer = s.timer_of fd in
      let non_null : (timer == 0) ≡ false = ground (arith, w.real) in
      let later_still : expire s.heap timer ≤ now + 15 = omega (arith, w.due, later) in
      subst (λ r. Succeeds IsKept (after_read fd now s r)) (sym got)
        (rw non_null (
          Succeeds-then (Adjusted s.heap timer (now + 15)) IsKept
            (adjust (set_expire s.heap timer (now + 15)) timer) _
            (adjust-Adjusted s.heap timer (now + 15) w.valid w.real w.queued later_still)
            (λ heap' a.
              let t0 : (set_expire s.heap timer (now + 15)).timers timer
                  ≡ record (s.heap.timers timer) { expire_time = now + 15 } =
                ground arith in
              let same = a.same_timers timer in
              (
                record {
                  valid = a.valid;
                  real = w.real;
                  queued = (a.queued timer).1 w.queued;
                  due = same.0 ∙ ap (λ (t : Timer). t.expire_time) t0;
                  calls = same.1 ∙ ap (λ (t : Timer). t.has_callback) t0 ∙ w.calls;
                  client = same.2 ∙ ap (λ (t : Timer). t.client_data) t0 ∙ w.client;
                },
                ground arith,
                refl,
                refl,
                a.queued,
              ))))

  -- A connection that is watched and whose Read gives false: the descriptor is removed from epoll and
  -- closed, the count goes down by one, and the timer stays in the heap, which is in order, without
  -- its callback. If the loop sees the descriptor fail then, before accept gives it again, it calls
  -- the callback that is not there.
  pub on_readable-IsClosed :
      read events (s.https fd) ≡ (h, Progress.returned false)
      → Succeeds IsClosed (on_readable fd events now s)
  unfolding on_readable on_closed call_timer after_failed_read call_back
  on_readable-IsClosed got =
      let timer = s.timer_of fd in
      let non_null : (timer == 0) ≡ false = ground (arith, w.real) in
      let (valid, off, queued) = del_timer_lem s.heap timer w.valid w.real in
      subst (λ r. Succeeds IsClosed (after_read fd now s r)) (sym got)
        (rw (non_null, w.calls)
          (Succeeds.succeeds
            (refl, valid, (queued timer).1 w.queued, off, rw (non_null, off) refl)))
