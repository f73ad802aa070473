-- ===== src/Server/Tests.antt =====
-- A server with two connections.
use wslyh.Base.{
  Succeeds, [], arith, false, if◌then◌else◌, none, pos, refl, some, true, ℕ, ◌==◌, ◌∷◌, ◌≡◌,
}
use wslyh.Request.{DecodeState, Request}
use wslyh.Http.{Http, cleared}
use wslyh.Http.Transfer.{Progress, Received, read, recv}
use wslyh.Timer.{Timer, TimerHeap}
use wslyh.Timer.Order.{IsQueued, IsValid}
use wslyh.Server.{Server, is_busy, on_readable, timer_handler}
use wslyh.Server.Watch.{IsClosed, IsWatched, on_readable-IsClosed}
use wslyh.Server.Expiry.{Expired, timer_handler-Expired}

abbrev fresh_request : Request
fresh_request = record {
  method = [];
  url = [];
  request_params = [];
  protocol = [];
  version = [];
  headers = [];
  body = [];
  next_pos = 0;
  is_open = false;
  decode_state = DecodeState.start;
}

abbrev idle_http : Http
idle_http = record {
  sock_fd = some 8;
  read_data = cleared;
  write_data = cleared;
  file_addr = none;
  data_len = pos 0;
  data_send_len = 0;
  trigger_mode = false;
  read_idx = 0;
  write_idx = 0;
  http_parse = fresh_request;
  iv_head = record { iov_base = pos 0; iov_len = 0 };
  iv_file = record { iov_base = pos 0; iov_len = 0 };
  linger = false;
}

-- timer 2 is that of descriptor 8, and timer 1 that of descriptor 7
abbrev store : ℕ → Timer
store t =
    if t == 1
    then record { expire_time = 30; has_callback = true; client_data = 7; pos = 1 }
    else if t == 2
    then record { expire_time = 20; has_callback = true; client_data = 8; pos = 0 }
    else record { expire_time = 0; has_callback = false; client_data = 0; pos = 0 }

abbrev two_timers : TimerHeap
two_timers = record {
  capacity = 1000;
  cur_num = 2;
  slots = λ i. if i == 0 then 2 else 1;
  timers = store;
}

two_timers-IsValid : IsValid two_timers
two_timers-IsValid = record {
  bounded = omega arith;
  roomy = omega arith;
  present = λ i l. ground arith;
  located = λ i l. ground arith;
  ordered = λ c z l. ground arith;
}

three_out : ¬ IsQueued two_timers 3
three_out q = omega arith

abbrev sample : Server
sample = record {
  https = λ fd. idle_http;
  world = record { http_cnt = pos 2; effects = [] };
  heap = two_timers;
  timer_of = λ fd. if fd == 8 then 2 else if fd == 7 then 1 else 0;
  tasks = [];
}

watched : IsWatched 8 20 sample
watched = record {
  valid = two_timers-IsValid;
  real = omega arith;
  queued = (omega arith, refl);
  due = refl;
  calls = refl;
  client = refl;
}

not_busy : is_busy (pos 2) ≡ false
unfolding is_busy
not_busy = refl

abbrev received : Http
received = (recv (b'G' ∷ []) idle_http).0

byte_read : read (Received.waiting (b'G' ∷ []) ∷ []) idle_http ≡ (received, Progress.returned true)
unfolding read wslyh.Http.Transfer.read_level
byte_read = refl

nothing_read : read (Received.end_of_stream ∷ []) idle_http ≡ (idle_http, Progress.returned false)
unfolding read wslyh.Http.Transfer.read_level
nothing_read = refl

on_readable-IsClosed_example :
    Succeeds
      (IsClosed 8 20 12 sample watched idle_http (Received.end_of_stream ∷ []))
      (on_readable 8 (Received.end_of_stream ∷ []) 12 sample)
on_readable-IsClosed_example =
    on_readable-IsClosed 8 20 12 sample watched idle_http (Received.end_of_stream ∷ []) nothing_read

timer_handler-Expired_example : Succeeds (Expired 25 sample) (timer_handler 25 sample)
timer_handler-Expired_example = timer_handler-Expired 25 sample two_timers-IsValid
