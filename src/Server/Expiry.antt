-- ===== src/Server/Expiry.antt =====
-- What TimerHandler closes.
use wslyh.Base.{
  List, Mem, Nodup, Succeeds, [], ap, append-nil, append_assoc, length, minus_ℕ, refl, suc, sym,
  zero, ℕ, ℤ, ◌++◌, ◌<◌, ◌↔◌, ◌∙◌, ◌∷◌, ◌≡◌, ◌≤◌,
}
use wslyh.Http.{Effect, remove_fd}
use wslyh.Timer.{expire, tick}
use wslyh.Timer.Order.{IsQueued, IsValid, SameTimers}
use wslyh.Timer.Ticks.{Due, Ticked, clients_of, tick-Ticked}
use wslyh.Server.{Server, call_all, call_back, timer_handler}
use wslyh.Server.Watch.{Succeeds-then}

-- the calls of epoll_ctl and close for descriptors
abbrev pub removals : List ℕ → List Effect
removals [] = []
removals (fd ∷ fds) = Effect.ctl_del fd ∷ Effect.close fd ∷ removals fds

-- the count after `n` connections were closed
abbrev pub count_down : ℕ → ℤ → ℤ
count_down zero n = n
count_down (suc k) n = count_down k (minus_ℕ n 1)

call_all-effects :
    (fds : List ℕ) (s : Server) → (call_all fds s).world.effects ≡ s.world.effects ++ removals fds
unfolding call_back remove_fd
call_all-effects [] s = sym (append-nil s.world.effects)
call_all-effects (fd ∷ fds) s =
    call_all-effects fds (call_back fd s)
    ∙ append_assoc (s.world.effects ++ Effect.ctl_del fd ∷ []) (Effect.close fd ∷ []) (removals fds)
    ∙ append_assoc s.world.effects (Effect.ctl_del fd ∷ []) (Effect.close fd ∷ removals fds)

call_all-count :
    (fds : List ℕ) (s : Server)
    → (call_all fds s).world.http_cnt ≡ count_down (length fds) s.world.http_cnt
unfolding call_back remove_fd
call_all-count [] s = refl
call_all-count (fd ∷ fds) s = call_all-count fds (call_back fd s)

call_all-heap : (fds : List ℕ) (s : Server) → (call_all fds s).heap ≡ s.heap
unfolding call_back
call_all-heap [] s = refl
call_all-heap (fd ∷ fds) s = call_all-heap fds (call_back fd s)

-- What TimerHandler leaves: all timers that expired, each once and in the order of their expiry, are
-- gone from the heap; the descriptors of those that still had their callback are closed, in that order.
pub record Expired (now : ℕ) (s t : Server) : Type 0 where
  pub gone : List ℕ
  pub due : Due s.heap now 0 gone
  pub once : Nodup gone
  pub gone_iff : (u : ℕ) → Mem u gone ↔ (IsQueued s.heap u × (expire s.heap u ≤ now))
  pub valid : IsValid t.heap
  pub same_timers : SameTimers t.heap s.heap
  pub queued : (u : ℕ) → IsQueued t.heap u ↔ (IsQueued s.heap u × (now < expire s.heap u))
  pub closed : t.world.effects ≡ s.world.effects ++ removals (clients_of s.heap gone)
  pub counted : t.world.http_cnt ≡ count_down (length (clients_of s.heap gone)) s.world.http_cnt

-- TimerHandler, with a heap in order, ends; it closes the descriptors of exactly the timers that
-- expired and still have their callback, each timer once and in the order of their expiry, and
-- counts one connection down for each; the other timers stay.
pub timer_handler-Expired :
    (now : ℕ) (s : Server) → IsValid s.heap → Succeeds (Expired now s) (timer_handler now s)
unfolding timer_handler
timer_handler-Expired now s v =
    Succeeds-then (Ticked now s.heap []) (Expired now s) (tick now s.heap) _
      (tick-Ticked now s.heap v)
      (λ r k.
        let s1 : Server = record s { heap = r.0 } in
        let heap_kept = call_all-heap r.1 s1 in
        record {
          gone = k.gone;
          due = k.due;
          once = k.once;
          gone_iff = k.gone_iff;
          valid = rw heap_kept k.valid;
          same_timers = rw heap_kept k.same_timers;
          queued = λ u. rw heap_kept (k.queued u);
          closed = call_all-effects r.1 s1 ∙ ap (λ o. s.world.effects ++ removals o) k.called;
          counted =
              call_all-count r.1 s1 ∙ ap (λ o. count_down (length o) s.world.http_cnt) k.called;
        })
