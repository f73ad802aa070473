-- ===== src/Server/System/Tests.antt =====
-- A server that has accepted a connection.
use wslyh.Server.System.Handle.{HandleEnds}
use wslyh.Base.{
  Mem, Outcome, Succeeds, [], arith, false, fault, inl, none, ok, out_of_bounds, pos, refl, some,
  true, ℕ, ◌∷◌, ◌≡◌,
}
use wslyh.Http.Lines.{add_line, add_status_line}
use wslyh.Http.Respond.{error_page, is_opened, parse_write}
use wslyh.Server.Twice.{ClosesTwice, answered, answered-ClosesTwice}
use wslyh.Server.System.Idle.{IsEmpty, reach-IsEmpty}
use wslyh.Server.Signals.{delivered, flagged, on_pipe-delivered}
use wslyh.Server.System.Safe.{TimedOut, reach-Good, reach-handle, reach-on_timeout}
use wslyh.Server.Cases.{Good, opened}
use wslyh.Request.{DecodeState, Request}
use wslyh.Http.{Http, add_fd, cleared, init_http}
use wslyh.Timer.{Timer, add_timer, load, new_heap, place, resize, up_loop}
use wslyh.Server.{is_busy, on_accept}
use wslyh.Server.Loop.{Input, Loop, handle, on_pipe, on_signal, on_timeout}
use wslyh.Server.System.{IsPossible, Reach, Step, started}

abbrev fresh_request : Request
fresh_request = record {
  method = [];
  url = [];
  request_params = [];
  protocol = [];
  version = [];
  headers = [];
  body = [];
  next_pos = 0;
  is_open = false;
  decode_state = DecodeState.start;
}

abbrev new_http : Http
new_http = record {
  sock_fd = none;
  read_data = cleared;
  write_data = cleared;
  file_addr = none;
  data_len = pos 0;
  data_send_len = 0;
  trigger_mode = false;
  read_idx = 0;
  write_idx = 0;
  http_parse = fresh_request;
  iv_head = record { iov_base = pos 0; iov_len = 0 };
  iv_file = record { iov_base = pos 0; iov_len = 0 };
  linger = false;
}

abbrev new_timers : ℕ → Timer
new_timers t = record { expire_time = 0; has_callback = false; client_data = 0; pos = 0 }

abbrev server_start : Loop
server_start = started (λ fd. new_http) new_timers

-- accept gives descriptor 7
abbrev arrival : Input
arrival = record {
  sockfd = 3;
  hung_up = false;
  readable = true;
  writable = false;
  now = 5;
  connfd = some 7;
  address = 1;
  signals = none;
  received = [];
  writes = [];
}

-- the alarm comes through the socket pair
abbrev alarm : Input
alarm = record arrival { sockfd = 4; connfd = none; signals = some (14 ∷ []) }

-- the connection hangs up
abbrev hang_up : Input
hang_up = record arrival { sockfd = 7; hung_up = true; connfd = none }

abbrev loop_after : Outcome Loop → Loop
loop_after (ok l) = l
loop_after (fault why) = server_start

abbrev arrived : Loop
arrived = loop_after (handle 3 4 arrival server_start)

arrived_ok : handle 3 4 arrival server_start ≡ ok arrived
unfolding handle on_accept is_busy add_timer place up_loop resize load new_heap
arrived_ok = refl

-- a descriptor behind the end of the arrays
far_arrival : handle 3 4 (record arrival { connfd = some 65536 }) server_start ≡ fault out_of_bounds
unfolding handle on_accept is_busy
far_arrival = refl

arrival-IsPossible : IsPossible 3 4 arrival server_start.server
unfolding new_heap
arrival-IsPossible =
    IsPossible.new_connection 7 refl refl (λ m. m) (omega arith) (λ q. absurd (omega (arith, q.0)))

reach_arrived : Reach 3 4 5 server_start 5 arrived
reach_arrived =
    Reach.next Reach.here (Step.event arrival arrived refl arrival-IsPossible arrived_ok)

reach-Good_example : Good 5 arrived.server
reach-Good_example = reach-Good 3 4 5 (λ fd. new_http) new_timers 5 arrived reach_arrived

still_open : Mem 7 (opened arrived.server)
unfolding handle on_accept is_busy init_http add_fd add_timer place up_loop resize load new_heap
still_open = inl refl

hang_up-IsPossible : IsPossible 3 4 hang_up arrived.server
hang_up-IsPossible =
    IsPossible.connection (λ e. omega (arith, e)) (λ e. omega (arith, e)) still_open
      (λ e. absurd (ground (arith, e)))

reach-handle_example : HandleEnds 3 hang_up arrived (handle 3 4 hang_up arrived)
reach-handle_example =
    reach-handle 3 4 5 (λ fd. new_http) new_timers hang_up arrived reach_arrived hang_up-IsPossible

abbrev late : Loop
late = record arrived { timeout = true }

alarm-IsPossible : IsPossible 3 4 alarm arrived.server
alarm-IsPossible = IsPossible.signalled (λ e. omega (arith, e)) refl refl refl

late_ok : handle 3 4 alarm arrived ≡ ok late
unfolding handle on_signal
late_ok = refl

-- twenty seconds later, with the signal of the alarm
reach_late : Reach 3 4 5 server_start 25 late
reach_late =
    Reach.next (Reach.next reach_arrived (Step.event alarm late refl alarm-IsPossible late_ok))
      (Step.wait 25 (omega arith))

reach-on_timeout_example : Succeeds (TimedOut 25) (on_timeout 25 late)
reach-on_timeout_example =
    reach-on_timeout 3 4 5 (λ fd. new_http) new_timers 25 late reach_late refl

on_pipe-delivered_example :
    on_pipe (some (delivered (15 ∷ 14 ∷ []) [])) server_start ≡ flagged (15 ∷ 14 ∷ []) server_start
on_pipe-delivered_example =
    on_pipe-delivered (15 ∷ 14 ∷ []) server_start (omega arith, (omega arith, tt))

-- the connection of the start is closed
reach-IsEmpty_example :
    Succeeds (λ m. IsEmpty m.server) (on_timeout 20 (on_pipe (some (14 ∷ [])) arrived))
unfolding on_signal
reach-IsEmpty_example =
    reach-IsEmpty 3 4 5 (λ fd. new_http) new_timers 5 20 arrived (some (14 ∷ [])) reach_arrived
      (omega arith) refl

-- the write buffer is full
abbrev full_http : Http
full_http = record new_http { sock_fd = some 7; write_idx = 5119 }

refused :
    ((parse_write none DecodeState.invalid full_http).1 ≡ false)
    × ((parse_write none DecodeState.invalid full_http).0.sock_fd ≡ some 7)
unfolding parse_write error_page add_status_line add_line wslyh.Http.Lines.add_content
    wslyh.Http.Lines.add_headers wslyh.Http.Lines.add_content_length wslyh.Http.Lines.status_line
    wslyh.Base.decimal wslyh.Base.to_int
refused = (refl, refl)

answered-ClosesTwice_example :
    ClosesTwice 5 7 arrived.server (answered 7 none DecodeState.invalid full_http arrived.server)
unfolding is_opened
answered-ClosesTwice_example =
    answered-ClosesTwice 5 7 arrived.server reach-Good_example still_open none DecodeState.invalid
      full_http refl refused.0 refused.1
