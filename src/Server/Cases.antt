-- ===== src/Server/Cases.antt =====
-- What each case of the event loop does to the invariant of the server.
use wslyh.Base.{
  List, Mem, Succeeds, [], add_ℕ, ap, arith, false, inl, inr, leb, minus_ℕ, refl, sym, true, update,
  ℕ, ◌++◌, ◌+◌, ◌<◌, ◌==◌, ◌∙◌, ◌∷◌, ◌≡◌, ◌≢◌, ◌⊎◌,
}
use wslyh.Timer.Order.{IsQueued}
use wslyh.Timer.Insert.{Added, add_timer-Added}
use wslyh.Http.{Effect, add_fd, init_http, remove_fd}
use wslyh.Timer.{Timer, TimerHeap, add_timer, adjust, del_timer}
use wslyh.Timer.Adjust.{Adjusted, adjust-Adjusted, del_timer-other, del_timer_lem, set_expire}
use wslyh.Server.{
  Server, call_back, call_timer, is_busy, max_fd, new_timer, on_accept, on_closed, put_off,
}
use wslyh.Server.Opened.{opened_from, opened_from-append, remove}
use wslyh.Server.Sound.{IsSound, IsSound-accepted, IsSound-closed, IsSound-kept}
use wslyh.Server.Watch.{IsValid-stored, Succeeds-then, stored, stored-fresh, stored-kept}
use mathlib.Core.Path.{subst}

abbrev pub opened : Server → List ℕ
opened s = opened_from s.world.effects []

abbrev pub Good : ℕ → Server → Type 0
Good now s = IsSound now s.heap s.timer_of s.world.http_cnt (opened s)

pub call_back-opened : (fd : ℕ) (s : Server) → opened (call_back fd s) ≡ remove fd (opened s)
unfolding call_back remove_fd
call_back-opened fd s =
    opened_from-append (s.world.effects ++ Effect.ctl_del fd ∷ []) (Effect.close fd ∷ []) []
    ∙ ap (remove fd) (opened_from-append s.world.effects (Effect.ctl_del fd ∷ []) [])

module _ (now : ℕ) (s : Server) (good : Good now s) (fd : ℕ) (m : Mem fd (opened s)) where
  non_null : (s.timer_of fd == 0) ≡ false
  non_null = let w = good.watched fd m in ground (arith, w.real)

  -- the descriptor stays open
  pub put_off-Good :
      Succeeds (λ t. Good now t × (t.world ≡ s.world)) (put_off (s.timer_of fd) now s)
  unfolding put_off
  put_off-Good =
      let u = s.timer_of fd in
      let w = good.watched fd m in
      let late = set_expire s.heap u (now + 15) in
      rw non_null (
        Succeeds-then (Adjusted s.heap u (now + 15)) (λ t. Good now t × (t.world ≡ s.world))
          (adjust late u) _ (adjust-Adjusted s.heap u (now + 15) good.valid w.real w.queued w.due)
          (λ heap' a. (
            IsSound-kept now s.heap s.timer_of s.world.http_cnt (opened s) good now (omega arith)
                heap' a.valid (λ v. let same = a.same_timers v in ground arith)
                (λ v q c. ((a.queued v).1 q, let same = a.same_timers v in ground arith))
                (λ v q. (a.queued v).0 q),
            refl,
          )))

  -- the descriptor is closed
  pub on_closed-Good :
      Succeeds (λ t. Good now t × (t.world ≡ (call_back fd s).world)) (on_closed fd s)
  unfolding on_closed call_timer call_back remove_fd
  on_closed-Good =
      let u = s.timer_of fd in
      let w = good.watched fd m in
      let (valid, off, queued) = del_timer_lem s.heap u good.valid w.real in
      let closed : IsSound now (del_timer s.heap u) s.timer_of (minus_ℕ s.world.http_cnt 1)
          (remove fd (opened s)) =
        IsSound-closed now s.heap s.timer_of s.world.http_cnt (opened s) good fd m
          (del_timer s.heap u) valid
          (λ v d.
            let same = del_timer-other s.heap u v d in
            (
              (ap (λ (t : Timer). t.has_callback) same, ap (λ (t : Timer). t.client_data) same),
              ap (λ (t : Timer). t.expire_time) same,
            ))
          (λ v d. queued v) (λ q. off) in
      rw (non_null, w.calls)
        (Succeeds.succeeds (
          subst (λ o. IsSound now (del_timer s.heap u) s.timer_of (minus_ℕ s.world.http_cnt 1) o)
              (sym (call_back-opened fd s)) closed,
          refl,
        ))

-- A connection that is not open is accepted, with a timer at an address that the heap does not use.
module _ (now connfd address : ℕ) (s : Server) (good : Good now s)
    (fresh : ¬ IsQueued s.heap address) where
  abbrev with_timer : TimerHeap
  with_timer = stored s.heap address (new_timer now connfd) good.valid fresh

  -- the timers of the heap after a timer was stored
  IsQueued-before : (u : ℕ) → u ≢ address → IsQueued with_timer u → IsQueued s.heap u
  IsQueued-before u d q =
      let e : with_timer.timers u ≡ s.heap.timers u = ground arith in
      subst (λ (t : Timer). (t.pos < s.heap.cur_num) × (s.heap.slots t.pos ≡ u)) e q

  before_or_new :
      (u : ℕ) → (IsQueued with_timer u ⊎ (u ≡ address)) → (IsQueued s.heap u ⊎ (u ≡ address))
  before_or_new u (inr e) = inr e
  before_or_new u (inl q) =
      let new = stored-fresh s.heap address (new_timer now connfd) good.valid fresh refl in
      inl (IsQueued-before u (λ e. new (subst (IsQueued with_timer) e q)) q)

  now_or_new :
      (u : ℕ) → (IsQueued s.heap u ⊎ (u ≡ address)) → (IsQueued with_timer u ⊎ (u ≡ address))
  now_or_new u (inr e) = inr e
  now_or_new u (inl q) =
      inl (stored-kept s.heap address (new_timer now connfd) good.valid fresh u q)

  pub on_accept-Good :
      is_busy s.world.http_cnt ≡ false
      → leb max_fd connfd ≡ false
      → ¬ Mem connfd (opened s)
      → 0 < address
      → Succeeds (λ t. Good now t × (opened t ≡ connfd ∷ opened s)) (on_accept connfd address now s)
  unfolding on_accept init_http add_fd
  on_accept-Good room small new real =
      let timer = new_timer now connfd in
      let o : opened_from (s.world.effects ++ Effect.ctl_add connfd false true ∷ []) []
          ≡ connfd ∷ opened s =
        opened_from-append s.world.effects (Effect.ctl_add connfd false true ∷ []) [] in
      let fresh' = stored-fresh s.heap address timer good.valid fresh refl in
      rw (room, small)
        (Succeeds-then (Added with_timer address) _ (add_timer with_timer address) _
          (add_timer-Added with_timer address (IsValid-stored s.heap address timer good.valid fresh)
            real fresh')
          (λ heap' a.
            let t0 : with_timer.timers address ≡ timer = ground arith in
            let same = a.same_timers address in
            (
              subst
                  (IsSound now heap' (update s.timer_of connfd address) (add_ℕ s.world.http_cnt 1))
                  (sym o)
                  (IsSound-accepted now s.heap s.timer_of s.world.http_cnt (opened s) good connfd
                    address new real fresh heap' a.valid
                    (λ u d. let same = a.same_timers u in ground arith)
                    (λ u. (
                      λ q. before_or_new u ((a.queued u).0 q),
                      λ q. (a.queued u).1 (now_or_new u q),
                    ))
                    (same.0 ∙ ap (λ (t : Timer). t.expire_time) t0)
                    (same.1 ∙ ap (λ (t : Timer). t.has_callback) t0)
                    (same.2 ∙ ap (λ (t : Timer). t.client_data) t0)),
              o,
            )))
