-- ===== src/Server/Quiet.antt =====
-- What TimerHandler does to the invariant of the server, and what it leaves open.
use wslyh.Base.{
  Bool-cases, List, Mem, Succeeds, [], ap, arith, false, inl, inr, minus_ℕ, refl, sym, true, ℕ,
  ◌++◌, ◌<◌, ◌∙◌, ◌∷◌, ◌≡◌, ◌≢◌,
}
use wslyh.Server.Watch.{Succeeds-both, Succeeds-then}
use wslyh.Timer.Ticks.{Ticked, tick-Ticked}
use wslyh.Timer.{TimerHeap, expire, tick}
use wslyh.Timer.Order.{IsQueued}
use wslyh.Timer.Remove.{Popped}
use wslyh.Timer.Rule.{called_with, tick-keeps}
use wslyh.Http.{remove_fd}
use wslyh.Server.{Server, call_all, call_back, timer_handler}
use wslyh.Server.Opened.{remove}
use wslyh.Server.Sound.{IsSound, IsSound-closed, IsSound-kept, SameCalls}
use wslyh.Server.Cases.{Good, call_back-opened, opened}

call_all-append :
    (fds gds : List ℕ) (s : Server) → call_all (fds ++ gds) s ≡ call_all gds (call_all fds s)
call_all-append [] gds s = refl
call_all-append (fd ∷ fds) gds s = call_all-append fds gds (call_back fd s)

-- the calls do not read the heap, and do not change it
call_all-with_heap :
    (fds : List ℕ) (h : TimerHeap) (s : Server)
    → call_all fds (record s { heap = h }) ≡ record (call_all fds s) { heap = h }
unfolding call_back
call_all-with_heap [] h s = refl
call_all-with_heap (fd ∷ fds) h s = call_all-with_heap fds h (call_back fd s)

call_all-timer_of : (fds : List ℕ) (s : Server) → (call_all fds s).timer_of ≡ s.timer_of
unfolding call_back
call_all-timer_of [] s = refl
call_all-timer_of (fd ∷ fds) s = call_all-timer_of fds (call_back fd s)

pub call_back-count :
    (fd : ℕ) (s : Server) → (call_back fd s).world.http_cnt ≡ minus_ℕ s.world.http_cnt 1
unfolding call_back remove_fd
call_back-count fd s = refl

-- the open descriptors have timers that have not expired
abbrev pub AllUnexpired : ℕ → Server → Type 0
AllUnexpired now t = (fd : ℕ) → Mem fd (opened t) → now < expire t.heap (t.timer_of fd)

module _ (now : ℕ) (s : Server) (good : Good now s) where
  -- in a round of Tick, with the heap `h` and the callbacks `out` so far
  abbrev Between : TimerHeap → List ℕ → Type 0
  Between h out = IsSound now h s.timer_of (call_all out s).world.http_cnt (opened (call_all out s))

  module _ (h h' : TimerHeap) (out : List ℕ) (root : IsQueued h (h.slots 0)) (p : Popped h h')
      (b : Between h out) where
    same_calls : (u : ℕ) → SameCalls h' h u
    same_calls u = ((p.same_timers u).1, (p.same_timers u).2)

    round-silent : (h.timers (h.slots 0)).has_callback ≡ false → Between h' out
    round-silent off =
        IsSound-kept now h s.timer_of (call_all out s).world.http_cnt (opened (call_all out s)) b
          now (omega arith) h' p.valid same_calls
          (λ u q c.
            let ne : u ≢ h.slots 0 =
              λ e. let on = ap (λ v. (h.timers v).has_callback) (sym e) ∙ c in cc in
            let e = (p.same_timers u).0 in ((p.queued u).1 (q, ne), inl (omega (arith, e))))
          (λ u q. ((p.queued u).0 q).0)

    round-called :
        (h.timers (h.slots 0)).has_callback ≡ true
        → Between h' (out ++ (h.timers (h.slots 0)).client_data ∷ [])
    round-called on =
        let fd = (h.timers (h.slots 0)).client_data in
        let (m, t) = b.owned (h.slots 0) root on in
        let closed : IsSound now h' s.timer_of (minus_ℕ (call_all out s).world.http_cnt 1)
            (remove fd (opened (call_all out s))) =
          IsSound-closed now h s.timer_of (call_all out s).world.http_cnt (opened (call_all out s))
            b fd m h' p.valid (λ u d. (same_calls u, (p.same_timers u).0))
            (λ u d. (λ q. ((p.queued u).0 q).0, λ q. (p.queued u).1 (q, λ e. d (e ∙ sym t))))
            (λ q. absurd (((p.queued (s.timer_of fd)).0 q).1 t)) in
        rw
          (
            call_all-append out (fd ∷ []) s,
            call_back-opened fd (call_all out s),
            call_back-count fd (call_all out s),
          )
          closed

    round-keeps : Between h' (called_with h out)
    round-keeps = elim (Bool-cases (h.timers (h.slots 0)).has_callback) [
      | inl on ↦ rw on (round-called on)
      | inr off ↦ rw off (round-silent off)
    ]

  tick-Between : Succeeds (λ r. Between r.0 r.1) (tick now s.heap)
  tick-Between = tick-keeps Between round-keeps now s.heap good.valid good

  abbrev called_after : TimerHeap × List ℕ → Server
  called_after r = call_all r.1 (record s { heap = r.0 })

  called_after-Good :
      (r : TimerHeap × List ℕ)
      → Between r.0 r.1
      → Ticked now s.heap [] r
      → Good now (called_after r) × AllUnexpired now (called_after r)
  called_after-Good r b k =
      rw (call_all-with_heap r.1 r.0 s, call_all-timer_of r.1 s)
        (
          b,
          λ fd m.
              let w = b.watched fd m in
              let later = ((k.queued (s.timer_of fd)).0 w.queued).1 in
              let e = (k.same_timers (s.timer_of fd)).0 in omega (arith, later, e),
        )

  pub timer_handler-Good : Succeeds (λ t. Good now t × AllUnexpired now t) (timer_handler now s)
  unfolding timer_handler
  timer_handler-Good =
      Succeeds-then (λ r. Between r.0 r.1 × Ticked now s.heap [] r) _ (tick now s.heap) called_after
        (Succeeds-both _ _ (tick now s.heap) tick-Between (tick-Ticked now s.heap good.valid))
        (λ r k. called_after-Good r k.0 k.1)
