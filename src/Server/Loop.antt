-- ===== src/Server/Loop.antt =====
-- main.cpp: the loop of main, from epoll_wait to TimerHandler, and the signals that come through the
-- socket pair. What epoll_wait, accept, recv, writev, time and new give is in the inputs.
use wslyh.Base.{
  Bool, List, Option, Outcome, [], false, if◌then◌else◌, none, ok, some, true, ℕ, ◌%◌, ◌&&◌, ◌++◌,
  ◌==◌, ◌>>=◌, ◌∷◌,
}
use wslyh.Http.Transfer.{Received, Written}
use wslyh.Server.{Server, on_accept, on_closed, on_readable, on_writable, timer_handler}

abbrev pub sigalrm : ℕ
sigalrm = 14

abbrev pub sigterm : ℕ
sigterm = 15

-- the server, with `timeout` and `stop_server`
pub record Loop : Type 0 where
  pub server : Server
  pub timeout : Bool
  pub stop_server : Bool

-- An entry of `events`: its descriptor, whether it has one of EPOLLRDHUP, EPOLLHUP and EPOLLERR, and
-- whether it has EPOLLIN and EPOLLOUT; with what the calls give that its case makes.
pub record Input : Type 0 where
  pub sockfd : ℕ
  pub hung_up : Bool
  pub readable : Bool
  pub writable : Bool
  -- time(NULL)
  pub now : ℕ
  -- what accept gives, `none` where that is negative, and new for the timer
  pub connfd : Option ℕ
  pub address : ℕ
  -- the bytes that recv gives for the socket pair, `none` for -1
  pub signals : Option (List ℕ)
  -- what recv and writev give for a connection
  pub received : List Received
  pub writes : List Written

-- one byte of the socket pair
unfoldable pub on_signal : ℕ → Loop → Loop
on_signal sig l =
    if sig == sigalrm
    then record l { timeout = true }
    else if sig == sigterm
    then record l { stop_server = true }
    else l

abbrev pub on_signals : List ℕ → Loop → Loop
on_signals [] l = l
on_signals (sig ∷ sigs) l = on_signals sigs (on_signal sig l)

-- SigHandler: the first byte of `msg`, whose low byte comes first, behind what the socket pair holds
unfoldable pub sig_handler : ℕ → List ℕ → List ℕ
sig_handler sig pipe = pipe ++ sig % 256 ∷ []

-- recv of the socket pair
abbrev pub on_pipe : Option (List ℕ) → Loop → Loop
on_pipe none l = l
on_pipe (some sigs) l = on_signals sigs l

-- accept, where it gives a descriptor and where not
abbrev pub on_listen : Option ℕ → ℕ → ℕ → Server → Outcome Server
on_listen none address now s = ok s
on_listen (some connfd) address now s = on_accept connfd address now s

-- what a case makes of the server, in the loop
abbrev pub with_server : Loop → Outcome Server → Outcome Loop
with_server l o = do s ← o; ok (record l { server = s })

-- TimerHandler(); timeout = false;
abbrev pub timed_out : ℕ → Loop → Outcome Loop
timed_out now l = do s ← timer_handler now l.server; ok (record l { server = s; timeout = false })

-- `if (timeout)`, at the end of a round
unfoldable pub on_timeout : ℕ → Loop → Outcome Loop
on_timeout now l = let handled = timed_out now l in if l.timeout then handled else ok l

-- What epoll_wait gives: events, or -1 with errno EINTR or another.
pub data Waited : Type 0 where
  gave : List Input → Waited
  interrupted wait_failed : Waited

abbrev pub inputs : Waited → List Input
inputs (gave es) = es
inputs interrupted = []
inputs wait_failed = []

abbrev pub is_failed : Waited → Bool
is_failed (gave es) = false
is_failed interrupted = false
is_failed wait_failed = true

-- a round: `later` is time(NULL) in Tick
pub record Round : Type 0 where
  pub waited : Waited
  pub later : ℕ

-- `listen_fd` is listenFd and `pipe_fd` is pipeFd[0].
module _ (listen_fd pipe_fd : ℕ) where
  -- one round of the loop over the events
  unfoldable pub handle : Input → Loop → Outcome Loop
  handle e l =
      if e.sockfd == listen_fd
      then with_server l (on_listen e.connfd e.address e.now l.server)
      else if e.hung_up
      then with_server l (on_closed e.sockfd l.server)
      else if (e.sockfd == pipe_fd) && e.readable
      then ok (on_pipe e.signals l)
      else if e.readable
      then with_server l (on_readable e.sockfd e.received e.now l.server)
      else if e.writable
      then with_server l (on_writable e.sockfd e.writes e.now l.server)
      else ok l

  unfoldable pub handle_all : List Input → Loop → Outcome Loop
  handle_all [] l = ok l
  handle_all (e ∷ es) l = do m ← handle e l; handle_all es m

  -- a round of the loop of main, and whether it ends without `break`
  unfoldable pub one_round : Round → Loop → Outcome (Loop × Bool)
  one_round r l =
      let handled : Outcome (Loop × Bool) = do
        m ← handle_all (inputs r.waited) l
        t ← on_timeout r.later m
        ok (t, true)
      in if is_failed r.waited then ok (l, false) else handled

  -- `while (!stop_server)`, for as many rounds as are given
  unfoldable pub run : List Round → Loop → Outcome Loop
  run [] l = ok l
  run (r ∷ rs) l =
      let more : Outcome Loop = do
        (m, on) ← one_round r l
        let rest = run rs m
        if on then rest else ok m
      in if l.stop_server then ok l else more
