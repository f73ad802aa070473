-- ===== src/Server/System.antt =====
-- The whole server: the loop of main and the workers of the pool, in any order.
pub mod Handle
pub mod Safe
pub mod Idle
mod Tests
use wslyh.Base.{
  Bool, List, Mem, Option, [], false, none, ok, pos, some, true, update, ℕ, ◌<◌, ◌∷◌, ◌≡◌, ◌≢◌, ◌≤◌,
  ◌⊎◌,
}
use wslyh.Request.{DecodeState}
use wslyh.Http.{Http}
use wslyh.Http.Transfer.{Progress, Writing, read, write}
use wslyh.Http.Respond.{FileStat, answer, is_opened, parse_read, parse_write}
use wslyh.Timer.{Timer, new_heap}
use wslyh.Timer.Order.{IsQueued}
use wslyh.Server.{Server}
use wslyh.Server.Cases.{opened}
use wslyh.Server.Loop.{Input, Loop, handle, on_timeout}

-- main, before its loop, with the memory as `new` gives it
abbrev pub started : (ℕ → Http) → (ℕ → Timer) → Loop
started https timers = record {
  server = record {
    https = https;
    world = record { http_cnt = pos 0; effects = [] };
    heap = new_heap 1000 timers;
    timer_of = λ fd. 0;
    tasks = [];
  };
  timeout = false;
  stop_server = false;
}

-- How a connection's data comes and goes: a call of Read ends, and one of Write does not loop.
abbrev pub Ends : Input → Server → Type 0
Ends e s =
    (e.readable ≡ true
      → (h : Http) × (kept : Bool) × (read e.received (s.https e.sockfd)
          ≡ (h, Progress.returned kept)))
    × (e.readable ≡ false
        → e.writable ≡ true
        → (r : Writing) → write e.writes (s.https e.sockfd) s.world ≡ ok r
        → (kept : Bool) × (r.progress ≡ Progress.returned kept))

module _ (listen_fd pipe_fd : ℕ) where
  -- What the kernel may report: a call of accept that gives nothing, or a descriptor that is not open;
  -- bytes of the socket pair; and what happens to an open connection.
  pub data IsPossible (e : Input) (s : Server) : Type 0 where
    nothing_new : e.sockfd ≡ listen_fd → e.connfd ≡ none → IsPossible e s
    new_connection :
        (connfd : ℕ)
        → e.sockfd ≡ listen_fd
        → e.connfd ≡ some connfd
        → ¬ Mem connfd (opened s)
        → 0 < e.address
        → ¬ IsQueued s.heap e.address
        → IsPossible e s
    signalled :
        e.sockfd ≢ listen_fd
        → e.sockfd ≡ pipe_fd
        → e.hung_up ≡ false
        → e.readable ≡ true
        → IsPossible e s
    connection :
        e.sockfd ≢ listen_fd
        → e.sockfd ≢ pipe_fd
        → Mem e.sockfd (opened s)
        → (e.hung_up ≡ false → Ends e s)
        → IsPossible e s

  pub data Step (now : ℕ) (l : Loop) : ℕ → Loop → Type 0 where
    wait : (later : ℕ) → now ≤ later → Step now l later l
    event :
        (e : Input) (m : Loop)
        → e.now ≡ now
        → IsPossible e l.server
        → handle listen_fd pipe_fd e l ≡ ok m
        → Step now l now m
    end_round : (m : Loop) → on_timeout now l ≡ ok m → Step now l now m
    -- HttpParse of the first task, by a worker, with a connection that it does not close
    work :
        (fd : ℕ) (rest : List ℕ) (file : Option FileStat) (h : Http) (status : DecodeState)
        → l.server.tasks ≡ fd ∷ rest
        → parse_read (l.server.https fd) ≡ ok (h, status)
        → (is_opened status ≡ true) ⊎ ((parse_write file status h).1 ≡ true)
        → Step now l now (record l {
          server = record l.server {
            tasks = rest;
            https = update l.server.https fd (answer file status h l.server.world).0;
            world = (answer file status h l.server.world).1;
          };
        })

  pub data Reach (now : ℕ) (l : Loop) : ℕ → Loop → Type 0 where
    here : Reach now l now l
    next : {t u : ℕ} {m k : Loop} → Reach now l t m → Step t m u k → Reach now l u k
