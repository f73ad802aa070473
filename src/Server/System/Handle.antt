-- ===== src/Server/System/Handle.antt =====
-- What the kernel may report, the loop of main handles without a fault.
use wslyh.Http.Transfer.{write}
use wslyh.Base.{
  Bool-cases, Fault, List, Mem, Option, Outcome, Succeeds, Succeeds-weaken, [], arith, false, fault,
  inl, inr, leb, none, ok, out_of_bounds, refl, some, succeeds, sym, true, ℕ, ◌<◌, ◌==◌, ◌∙◌, ◌∷◌,
  ◌≡◌, ◌≢◌, ◌≤◌, ◌⊎◌,
}
use wslyh.Server.System.{Ends, IsPossible}
use wslyh.Http.{Effect, emit}
use wslyh.Timer.Order.{IsQueued}
use wslyh.Server.{
  Server, is_busy, max_fd, on_accept, on_closed, on_readable, on_writable, send_info,
}
use wslyh.Server.Opened.{opened_from-append, remove-absent}
use wslyh.Server.Cases.{Good, on_accept-Good, on_closed-Good, opened}
use wslyh.Server.Watch.{Succeeds-then}
use wslyh.Server.Traffic.{Good-with_world, on_readable-Good, on_writable-Good}
use wslyh.Server.Loop.{Input, Loop, handle, on_pipe, on_signal, on_signals, with_server}
use mathlib.Core.Path.{subst}

abbrev pub AllGood : ℕ → Loop → Type 0
AllGood now l = Good now l.server

on_signals-server : (sigs : List ℕ) (l : Loop) → (on_signals sigs l).server ≡ l.server
unfolding on_signal
on_signals-server [] l = refl
on_signals-server (sig ∷ sigs) l =
    let one : (on_signal sig l).server ≡ l.server = ground arith in
    on_signals-server sigs (on_signal sig l) ∙ one

pub on_pipe-server : (sigs : Option (List ℕ)) (l : Loop) → (on_pipe sigs l).server ≡ l.server
on_pipe-server none l = refl
on_pipe-server (some sigs) l = on_signals-server sigs l

with_server-Good :
    (now : ℕ) (l : Loop) (o : Outcome Server)
    → Succeeds (Good now) o
    → Succeeds (AllGood now) (with_server l o)
with_server-Good now l o good =
    Succeeds-then (Good now) (AllGood now) o (λ s. record l { server = s }) good (λ s g. g)

-- accept's case goes well, or the descriptor is behind the end of the arrays
abbrev IsAccepted : ℕ → Server → ℕ → Outcome Server → Type 0
IsAccepted now s connfd o =
    Succeeds (Good now) o
    ⊎ ((is_busy s.world.http_cnt ≡ false) × (max_fd ≤ connfd) × (o ≡ fault out_of_bounds))

-- a call gives a value or a fault
Outcome-cases :
    {A : Type 0} (o : Outcome A) → ((v : A) × (o ≡ ok v)) ⊎ ((why : Fault) × (o ≡ fault why))
Outcome-cases (ok v) = inl (v, refl)
Outcome-cases (fault why) = inr (why, refl)

pub value_of : {A : Type 0} (P : A → Type 0) (o : Outcome A) (v : A) → Succeeds P o → o ≡ ok v → P v
value_of P o v good e = value (subst (Succeeds P) e good)
  where
    value : Succeeds P (ok v) → P v
    value (succeeds h) = h

module _ (now : ℕ) (s : Server) (good : Good now s) where
  -- a connection that is turned away
  send_info-Good : (connfd : ℕ) → ¬ Mem connfd (opened s) → Good now (send_info connfd s)
  unfolding send_info
  send_info-Good connfd new =
      let same : opened (send_info connfd s) ≡ opened s =
        opened_from-append s.world.effects (Effect.close connfd ∷ []) []
        ∙ remove-absent connfd (opened s) new in
      Good-with_world now s (emit (Effect.close connfd) s.world) good (refl, same)

  on_accept-all :
      (connfd address : ℕ)
      → ¬ Mem connfd (opened s)
      → 0 < address
      → ¬ IsQueued s.heap address
      → IsAccepted now s connfd (on_accept connfd address now s)
  unfolding on_accept
  on_accept-all connfd address new real fresh = elim (Bool-cases (is_busy s.world.http_cnt)) [
    | inl busy ↦ inl (rw busy (succeeds (send_info-Good connfd new)))
    | inr room ↦ elim (Bool-cases (leb max_fd connfd)) [
      | inl big ↦ inr (room, ground arith, rw (room, big) refl)
      | inr small ↦ inl (
          Succeeds-weaken (on_accept-Good now connfd address s good fresh room small new real)
            (λ t g. g.0))
    ]
  ]

-- How a case of the loop ends, at `e`: without a fault, with the invariant; or with the fault of the
-- call of Write that it makes; or with a connection behind the end of the arrays.
pub data HandleEnds (listen_fd : ℕ) (e : Input) (l : Loop) (o : Outcome Loop) : Type 0 where
  ended : Succeeds (AllGood e.now) o → HandleEnds listen_fd e l o
  write_faults :
      (why : Fault)
      → e.sockfd ≢ listen_fd
      → (e.hung_up ≡ false) × (e.readable ≡ false) × (e.writable ≡ true)
      → write e.writes (l.server.https e.sockfd) l.server.world ≡ fault why
      → o ≡ fault why
      → HandleEnds listen_fd e l o
  too_large :
      (connfd : ℕ)
      → e.sockfd ≡ listen_fd
      → e.connfd ≡ some connfd
      → is_busy l.server.world.http_cnt ≡ false
      → max_fd ≤ connfd
      → o ≡ fault out_of_bounds
      → HandleEnds listen_fd e l o

module _ (listen_fd pipe_fd : ℕ) (e : Input) (l : Loop) (good : Good e.now l.server) where
  abbrev Handled : Outcome Loop → Type 0
  Handled o = HandleEnds listen_fd e l o

  -- the case that is taken
  as_case :
      {o : Outcome Loop}
      → handle listen_fd pipe_fd e l ≡ o
      → Handled o
      → Handled (handle listen_fd pipe_fd e l)
  as_case eq h = subst Handled (sym eq) h

  -- an open connection, whatever epoll reports of it
  module _ (m : Mem e.sockfd (opened l.server)) (ends : e.hung_up ≡ false → Ends e l.server) where
    on_closed-all : Handled (with_server l (on_closed e.sockfd l.server))
    on_closed-all = HandleEnds.ended (
        with_server-Good e.now l (on_closed e.sockfd l.server)
          (Succeeds-weaken (on_closed-Good e.now l.server good e.sockfd m) (λ t g. g.0)))

    on_readable-all :
        e.hung_up ≡ false
        → e.readable ≡ true
        → Handled (with_server l (on_readable e.sockfd e.received e.now l.server))
    on_readable-all on r =
        let (h, kept, got) = (ends on).0 r in
        HandleEnds.ended (
          with_server-Good e.now l (on_readable e.sockfd e.received e.now l.server) (
            Succeeds-weaken (on_readable-Good e.now l.server good e.sockfd m e.received h kept got)
              (λ t g. g.0)))

    on_writable-all :
        e.sockfd ≢ listen_fd
        → e.hung_up ≡ false
        → e.readable ≡ false
        → e.writable ≡ true
        → Handled (with_server l (on_writable e.sockfd e.writes e.now l.server))
    unfolding on_writable
    on_writable-all not_listen on r w =
        elim (Outcome-cases (write e.writes (l.server.https e.sockfd) l.server.world)) [
          | inl (v, got) ↦
              let (kept, over) = (ends on).1 r w v got in
              HandleEnds.ended (
                with_server-Good e.now l (on_writable e.sockfd e.writes e.now l.server) (
                  Succeeds-weaken
                    (on_writable-Good e.now l.server good e.sockfd m e.writes v got kept over)
                    (λ t g. g.0)))
          | inr (why, breaks) ↦
              HandleEnds.write_faults why not_listen (on, r, w) breaks (rw breaks refl)
        ]

    connection-Good :
        e.sockfd ≢ listen_fd → e.sockfd ≢ pipe_fd → Handled (handle listen_fd pipe_fd e l)
    unfolding handle
    connection-Good not_listen not_pipe =
        let a : (e.sockfd == listen_fd) ≡ false = ground arith in
        let b : (e.sockfd == pipe_fd) ≡ false = ground arith in
        elim (Bool-cases e.hung_up) [
          | inl off ↦ as_case (rw (a, off) refl) on_closed-all
          | inr on ↦ elim (Bool-cases e.readable) [
            | inl r ↦ as_case (rw (a, on, b, r) refl) (on_readable-all on r)
            | inr r ↦ elim (Bool-cases e.writable) [
              | inl w ↦ as_case (rw (a, on, b, r, w) refl) (on_writable-all not_listen on r w)
              | inr w ↦
                  as_case (rw (a, on, b, r, w) refl) (HandleEnds.ended (succeeds {v = l} good))
            ]
          ]
        ]

  -- an accept, whatever the descriptor
  accepted-all :
      (connfd : ℕ)
      → e.sockfd ≡ listen_fd
      → e.connfd ≡ some connfd
      → IsAccepted e.now l.server connfd (on_accept connfd e.address e.now l.server)
      → Handled (with_server l (on_accept connfd e.address e.now l.server))
  accepted-all connfd at given (inl done) =
      HandleEnds.ended (with_server-Good e.now l (on_accept connfd e.address e.now l.server) done)
  accepted-all connfd at given (inr (room, big, breaks)) =
      HandleEnds.too_large connfd at given room big (rw breaks refl)

  -- Whatever the kernel may report, its case of the loop ends as `HandleEnds` says.
  pub handle-HandleEnds :
      IsPossible listen_fd pipe_fd e l.server → Handled (handle listen_fd pipe_fd e l)
  unfolding handle
  handle-HandleEnds (IsPossible.nothing_new at none_given) =
      let a : (e.sockfd == listen_fd) ≡ true = ground arith in
      as_case (rw (a, none_given) refl) (HandleEnds.ended (succeeds {v = l} good))
  handle-HandleEnds (IsPossible.new_connection connfd at given new real fresh) =
      let a : (e.sockfd == listen_fd) ≡ true = ground arith in
      as_case (rw (a, given) refl) (
        accepted-all connfd at given
          (on_accept-all e.now l.server good connfd e.address new real fresh))
  handle-HandleEnds (IsPossible.signalled not_listen at on r) =
      let a : (e.sockfd == listen_fd) ≡ false = ground arith in
      let b : (e.sockfd == pipe_fd) ≡ true = ground arith in
      as_case (rw (a, on, b, r) refl) (
        HandleEnds.ended (
          succeeds {v = on_pipe e.signals l}
            (subst (Good e.now) (sym (on_pipe-server e.signals l)) good)))
  handle-HandleEnds (IsPossible.connection not_listen not_pipe m ends) =
      connection-Good m ends not_listen not_pipe

-- where the case ends with a value
pub HandleEnds-value :
    (listen_fd : ℕ) (e : Input) (l m : Loop) (o : Outcome Loop)
    → HandleEnds listen_fd e l o
    → o ≡ ok m
    → Good e.now m.server
HandleEnds-value listen_fd e l m o (HandleEnds.ended good) r = value_of (AllGood e.now) o m good r
HandleEnds-value listen_fd e l m o (HandleEnds.write_faults why not_listen flags w breaks) r =
    let never : fault why ≡ ok m = sym breaks ∙ r in cc
HandleEnds-value listen_fd e l m o (HandleEnds.too_large connfd at given room big breaks) r =
    let never : fault out_of_bounds ≡ ok m = sym breaks ∙ r in cc
