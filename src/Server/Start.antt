-- ===== src/Server/Start.antt =====
-- main.cpp: main from its arguments to the socket pair.
use wslyh.Base.{
  Bool, Bytes, List, Outcome, [], codes, failed_assert, fault, if◌then◌else◌, leb, length, negsuc,
  null_pointer, ok, pos, suc, zero, ℕ, ℤ, ◌%◌, ◌&&◌, ◌-◌, ◌>>=◌, ◌^◌, ◌∷◌,
}
use wslyh.Log.Names.{LogPath, init_log_path}
use wslyh.Pool.{Threads, start}

-- main returns, or goes on to its loop with the threads of the pool and with the port as it stands in
-- the address.
pub data Start : Type 0 where
  exits : ℕ → Start
  serves : Threads → ℕ → LogPath → Start

-- argv[i], to be read; a null pointer stands behind the last
abbrev pub arg_at : ℕ → List Bytes → Outcome Bytes
arg_at i [] = fault null_pointer
arg_at zero (arg ∷ args) = ok arg
arg_at (suc i) (arg ∷ args) = arg_at i args

-- an int as uint16_t
abbrev pub to_port : ℤ → ℕ
to_port (pos n) = n % 2 ^ 16
to_port (negsuc n) = 2 ^ 16 - 1 - n % 2 ^ 16

-- `atoi` is that of the library; `accessible` is whether the directory of the log can be written;
-- `create` and `detach` are for the threads of the pool; `has_socket` to `has_pair` tell whether socket,
-- bind, listen, epoll_create and socketpair succeed.
module _ (atoi : Bytes → ℤ) (accessible : Bool) (create detach : ℕ → Bool)
    (has_socket binds listens has_epoll has_pair : Bool) where
  abbrev pub all_succeed : Bool
  all_succeed = has_socket && (binds && (listens && (has_epoll && has_pair)))

  -- The pool, as its constructor leaves it: where a thread cannot be created or detached, that deletes
  -- the array of the threads and returns, and main goes on.
  abbrev pub with_pool : Threads → ℕ → LogPath → Outcome Start
  with_pool threads port log =
      if all_succeed then ok (serves threads port log) else fault failed_assert

  -- `args` are all of argv, with the name of the program
  unfoldable pub main_start : List Bytes → LogPath → Outcome Start
  main_start args log =
      let more : Outcome Start = do
        level ← arg_at 2 args
        let named =
            init_log_path accessible (codes "./ServerLog") (codes "WebServer") (atoi level) log
        port ← arg_at 1 args
        with_pool (start create detach 4).0 (to_port (atoi port)) named
      in if leb (length args) 1 then ok (exits 1) else more
