-- ===== src/Server/System/Idle.antt =====
-- A server on which nothing happens for 15 seconds.
use wslyh.Base.{
  List, Mem, Option, Succeeds, Succeeds-weaken, [], ap, arith, false, if◌then◌else◌, inl, length,
  ok, pos, refl, sym, true, ℕ, ◌+◌, ◌∙◌, ◌∷◌, ◌≡◌, ◌≤◌,
}
use wslyh.Timer.{Timer, expire}
use wslyh.Http.{Http}
use wslyh.Server.{Server, timer_handler}
use wslyh.Server.Cases.{Good, opened}
use wslyh.Server.Watch.{Succeeds-both, Succeeds-then}
use wslyh.Server.Quiet.{timer_handler-Good}
use wslyh.Server.Expiry.{Expired, timer_handler-Expired}
use wslyh.Server.Loop.{Loop, on_pipe, on_timeout, timed_out}
use wslyh.Server.System.{Reach, started}
use wslyh.Server.System.Handle.{on_pipe-server}
use wslyh.Server.System.Safe.{later-Good, reach-Good}
use mathlib.Core.Path.{subst}

-- nothing is open
abbrev pub IsEmpty : Server → Type 0
IsEmpty t = (opened t ≡ []) × (t.world.http_cnt ≡ pos 0)

none_open : (xs : List ℕ) → ((fd : ℕ) → ¬ Mem fd xs) → xs ≡ []
none_open [] h = refl
none_open (x ∷ xs) h = absurd (h x (inl refl))

module _ (now later : ℕ) (s : Server) (good : Good now s) (passed : now + 15 ≤ later) where
  module _ (t : Server) (good' : Good later t) (x : Expired later s t) where
    none_watched : (fd : ℕ) → ¬ Mem fd (opened t)
    none_watched fd m =
        let w = good'.watched fd m in
        let u = t.timer_of fd in
        let (queued, late) = (x.queued u).0 w.queued in
        let same = x.same_timers u in
        let (mem, at) = good.owned u queued (sym same.1 ∙ w.calls) in
        let old = good.watched (s.heap.timers u).client_data mem in
        let e = ap (λ v. expire s.heap v) at in absurd (omega (arith, old.due, e, late, passed))

    all_closed : IsEmpty t
    all_closed =
        let e = none_open (opened t) none_watched in
        (e, good'.counted ∙ ap (λ (o : List ℕ). pos (length o)) e)

  timer_handler-IsEmpty : Succeeds IsEmpty (timer_handler later s)
  timer_handler-IsEmpty =
      let good' = later-Good now later s (omega arith) good in
      Succeeds-weaken
        (Succeeds-both _ _ (timer_handler later s) (timer_handler-Good later s good')
          (timer_handler-Expired later s good.valid))
        (λ t h. all_closed t h.0.0 h.1)

module _ (listen_fd pipe_fd start : ℕ) (https : ℕ → Http) (timers : ℕ → Timer) where
  -- In a state that the server comes to from its start, where the workers have closed no connection:
  -- when 15 seconds pass and nothing happens but signals through the socket pair, with one of the
  -- alarm, the end of the round closes every connection, and m_iHttpCnt is 0.
  pub reach-IsEmpty :
      (now later : ℕ) (l : Loop) (sigs : Option (List ℕ))
      → Reach listen_fd pipe_fd start (started https timers) now l
      → now + 15 ≤ later
      → (on_pipe sigs l).timeout ≡ true
      → Succeeds (λ m. IsEmpty m.server) (on_timeout later (on_pipe sigs l))
  unfolding on_timeout
  reach-IsEmpty now later l sigs r passed on =
      let m = on_pipe sigs l in
      let good : Good now m.server =
        subst (Good now) (sym (on_pipe-server sigs l))
          (reach-Good listen_fd pipe_fd start https timers now l r) in
      subst (λ b. Succeeds (λ k. IsEmpty k.server) (if b then timed_out later m else ok m)) (sym on)
        (Succeeds-then IsEmpty (λ k. IsEmpty k.server) (timer_handler later m.server)
          (λ s. record m { server = s; timeout = false })
          (timer_handler-IsEmpty now later m.server good passed) (λ s h. h))
