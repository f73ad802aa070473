-- ===== src/Server/System/Safe.antt =====
-- The invariant of the server, over everything that can happen to it.
use wslyh.Server.Watch.{Succeeds-then}
use wslyh.Timer.{Timer, new_heap}
use wslyh.Request.{DecodeState}
use wslyh.Server.System.Handle.{HandleEnds, HandleEnds-value, handle-HandleEnds, value_of}
use wslyh.Http.Respond.{FileStat, answer, is_opened, parse_write}
use wslyh.Server.Sound.{IsSound-kept}
use wslyh.Server.System.{IsPossible, Reach, Step, started}
use wslyh.Server.Quiet.{AllUnexpired, timer_handler-Good}
use wslyh.Base.{
  Bool-cases, Option, Succeeds, Succeeds-weaken, arith, false, if◌then◌else◌, inl, inr, ok, refl,
  succeeds, sym, true, update, ℕ, ◌∙◌, ◌≡◌, ◌≤◌, ◌⊎◌,
}
use wslyh.Http.{Event, Http, World}
use wslyh.Server.{Server, timer_handler}
use wslyh.Server.Cases.{Good, opened}
use wslyh.Server.Traffic.{Good-with_world, SameOpen, mod_fd-SameOpen}
use wslyh.Server.Loop.{Input, Loop, handle, on_timeout, timed_out}
use mathlib.Core.Path.{subst}

-- what holds after TimerHandler, where it was called
abbrev pub Checked : ℕ → Loop → Loop → Type 0
Checked now l t =
    Good now t.server × (t.timeout ≡ false) × (l.timeout ≡ true → AllUnexpired now t.server)

-- what holds after TimerHandler
abbrev pub TimedOut : ℕ → Loop → Type 0
TimedOut now t = Good now t.server × (t.timeout ≡ false) × AllUnexpired now t.server

-- a round of the loop ends
pub on_timeout-Checked :
    (now : ℕ) (l : Loop) → Good now l.server → Succeeds (Checked now l) (on_timeout now l)
unfolding on_timeout
on_timeout-Checked now l good = elim (Bool-cases l.timeout) [
  | inl on ↦
      subst (λ b. Succeeds (Checked now l) (if b then timed_out now l else ok l)) (sym on)
        (Succeeds-then (λ s. Good now s × AllUnexpired now s) (Checked now l)
          (timer_handler now l.server) (λ s. record l { server = s; timeout = false })
          (timer_handler-Good now l.server good) (λ s g. (g.0, refl, λ _. g.1)))
  | inr off ↦
      subst (λ b. Succeeds (Checked now l) (if b then timed_out now l else ok l)) (sym off)
        (succeeds (good, off, λ on. let never : false ≡ true = sym off ∙ on in cc))
]

-- time passes
pub later-Good : (now later : ℕ) (s : Server) → now ≤ later → Good now s → Good later s
later-Good now later s le good =
    IsSound-kept now s.heap s.timer_of s.world.http_cnt (opened s) good later le s.heap good.valid
      (λ u. (refl, refl)) (λ u q c. (q, inl (omega arith))) (λ u q. q)

-- the end of HttpParse, where it does not close the connection
answer-SameOpen :
    (file : Option FileStat) (status : DecodeState) (h : Http) (w : World)
    → (is_opened status ≡ true) ⊎ ((parse_write file status h).1 ≡ true)
    → SameOpen (answer file status h w).1 w
unfolding answer
answer-SameOpen file status h w (inl waits) =
    rw waits (mod_fd-SameOpen h.sock_fd Event.epoll_in h.trigger_mode w)
answer-SameOpen file status h w (inr done) = elim (Bool-cases (is_opened status)) [
  | inl waits ↦ rw waits (mod_fd-SameOpen h.sock_fd Event.epoll_in h.trigger_mode w)
  | inr on ↦
      let h' = (parse_write file status h).0 in
      rw (on, done) (mod_fd-SameOpen h'.sock_fd Event.epoll_out h'.trigger_mode w)
]

module _ (listen_fd pipe_fd : ℕ) where
  step-Good :
      (now later : ℕ) (l m : Loop)
      → Good now l.server
      → Step listen_fd pipe_fd now l later m
      → Good later m.server
  step-Good now later l m good (Step.wait v le) = later-Good now later l.server le good
  step-Good now later l m good (Step.event e k at possible result) =
      let here : Good e.now l.server = subst (λ t. Good t l.server) (sym at) good in
      let kept : Good e.now m.server =
        HandleEnds-value listen_fd e l m (handle listen_fd pipe_fd e l)
          (handle-HandleEnds listen_fd pipe_fd e l here possible) result in
      subst (λ t. Good t m.server) at kept
  step-Good now later l m good (Step.end_round k result) =
      (value_of (Checked now l) (on_timeout now l) m (on_timeout-Checked now l good) result).0
  step-Good now later l m good (Step.work fd rest file h status first parsed stays) =
      Good-with_world now
        (record l.server {
          tasks = rest;
          https = update l.server.https fd (answer file status h l.server.world).0;
        })
        (answer file status h l.server.world).1 good
        (answer-SameOpen file status h l.server.world stays)

  module _ (start : ℕ) (https : ℕ → Http) (timers : ℕ → Timer) where
    started-Good : Good start (started https timers).server
    unfolding new_heap
    started-Good = record {
      valid = record {
        bounded = omega arith;
        roomy = omega arith;
        present = λ i l. absurd (omega arith);
        located = λ i l. absurd (omega arith);
        ordered = λ c z l. absurd (omega arith);
      };
      nodup = tt;
      watched = λ fd m. absurd m;
      owned = λ u q c. absurd (omega (arith, q.0));
      counted = refl;
    }

    -- In every state that the server comes to from its start, by events that the kernel may report,
    -- rounds that end, the passing of time, and calls of HttpParse by the workers that do not close
    -- the connection: the heap of timers is in order, each open connection has a timer in it of its
    -- own that is due within 15 seconds, each timer with a callback is that of an open connection, and
    -- m_iHttpCnt is the number of the open connections.
    pub reach-Good :
        (now : ℕ) (l : Loop)
        → Reach listen_fd pipe_fd start (started https timers) now l
        → Good now l.server
    reach-Good now l Reach.here = started-Good
    reach-Good now l (Reach.next {t = t} {m = k} r step) =
        step-Good t now k l (reach-Good t k r) step

    -- In a state that the server comes to from its start, where the workers have closed no connection,
    -- the loop of main handles what the kernel may report in one of three ways. It ends without a
    -- fault, in a state where again each open connection has its own timer, due within 15 seconds, in a
    -- heap in order, and m_iHttpCnt is the number of them. Or it is EPOLLOUT, and the call of Write has
    -- a fault, which is then that of the loop. Or fewer than 65536 connections are counted and accept
    -- gives a descriptor of 65536 or more, and the loop goes out of the bounds of `https` and
    -- `clientDatas`. So no null callback is called and no slot of the heap is out of bounds. The kernel
    -- may report bytes of the socket pair, a failed accept, an accept of a descriptor that is not open
    -- where new gives an address that is not in use, and any flags for an open connection, where Read
    -- and Write do not loop for ever.
    pub reach-handle :
        (e : Input) (l : Loop)
        → Reach listen_fd pipe_fd start (started https timers) e.now l
        → IsPossible listen_fd pipe_fd e l.server
        → HandleEnds listen_fd e l (handle listen_fd pipe_fd e l)
    reach-handle e l r possible =
        handle-HandleEnds listen_fd pipe_fd e l (reach-Good e.now l r) possible

    -- In a state that the server comes to from its start, where the workers have closed no connection,
    -- and with `timeout` set: the end of the round of the loop ends without a fault, with `timeout`
    -- false, and no connection is left open whose timer has expired. Each open connection then has its
    -- own timer, due within 15 seconds, in a heap in order, and m_iHttpCnt is the number of them.
    pub reach-on_timeout :
        (now : ℕ) (l : Loop)
        → Reach listen_fd pipe_fd start (started https timers) now l
        → l.timeout ≡ true
        → Succeeds (TimedOut now) (on_timeout now l)
    reach-on_timeout now l r on =
        Succeeds-weaken (on_timeout-Checked now l (reach-Good now l r)) (λ t c. (c.0, c.1, c.2 on))
