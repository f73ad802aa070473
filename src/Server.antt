-- ===== src/Server.antt =====
-- main.cpp: the cases of the event loop over the connections, the heap of timers and the pool's queue.
pub mod Watch
pub mod Cases
pub mod Sound
pub mod Opened
pub mod Expiry
pub mod Quiet
pub mod Traffic
pub mod Twice
pub mod Start
pub mod Loop
pub mod Signals
pub mod System
mod Tests
use wslyh.Base.{
  Bool, List, Outcome, [], false, fault, if◌then◌else◌, leb, minus_ℕ, negsuc, no_fuel, null_pointer,
  ok, out_of_bounds, pos, true, update, ℕ, ℤ, ◌*◌, ◌++◌, ◌+◌, ◌==◌, ◌>>=◌, ◌∷◌,
}
use wslyh.Http.{Effect, Http, World, emit, init_http, remove_fd}
use wslyh.Http.Transfer.{Progress, Received, Writing, Written, read, write}
use wslyh.Pool.{too_much}
use wslyh.Timer.{Timer, TimerHeap, add_timer, adjust, del_timer, tick}
use wslyh.Timer.Adjust.{set_expire}

abbrev pub max_fd : ℕ
max_fd = 65536

abbrev pub time_slot : ℕ
time_slot = 5

-- `https` and `timer_of` (clientDatas[fd].timer, 0 where it is null) are by the descriptor, which
-- stands for &clientDatas[fd] too. `tasks` is the queue of the pool.
pub record Server : Type 0 where
  pub https : ℕ → Http
  pub world : World
  pub heap : TimerHeap
  pub timer_of : ℕ → ℕ
  pub tasks : List ℕ

-- CallBackFunc
unfoldable pub call_back : ℕ → Server → Server
call_back fd s =
    let w = remove_fd fd s.world in
    record s { world = record w { http_cnt = minus_ℕ w.http_cnt 1 } }

-- tempTimer->callback_func(&clientDatas[fd])
unfoldable pub call_timer : ℕ → ℕ → Server → Outcome Server
call_timer timer fd s =
    if timer == 0
    then fault null_pointer
    else if (s.heap.timers timer).has_callback
    then ok (call_back fd s)
    else fault null_pointer

-- cTimerHeap.DelTimer(tempTimer)
abbrev pub del_of : ℕ → Server → Server
del_of timer s = record s { heap = del_timer s.heap timer }

-- new CHeapTimer(3 * TIMESLOT) with the members that the loop sets
abbrev pub new_timer : ℕ → ℕ → Timer
new_timer now connfd = record {
  expire_time = now + 3 * time_slot;
  has_callback = true;
  client_data = connfd;
  pos = 0;
}

-- SendInfo, where the send is left out
unfoldable pub send_info : ℕ → Server → Server
send_info connfd s = record s { world = emit (Effect.close connfd) s.world }

-- CHttp::m_iHttpCnt >= MAX_FD
unfoldable pub is_busy : ℤ → Bool
is_busy (pos n) = leb max_fd n
is_busy (negsuc n) = false

-- A connection that accept gives; `address` is what new gives for the timer. `https` and
-- `clientDatas` have MAX_FD entries, and the descriptor is not compared with that.
unfoldable pub on_accept : ℕ → ℕ → ℕ → Server → Outcome Server
on_accept connfd address now s =
    let (h, w) = init_http connfd false (s.https connfd) s.world in
    let stored = record s.heap { timers = update s.heap.timers address (new_timer now connfd) } in
    let watched : Outcome Server = do
      heap' ← add_timer stored address
      ok (record s {
        https = update s.https connfd h;
        world = w;
        timer_of = update s.timer_of connfd address;
        heap = heap';
      })
    in if is_busy s.world.http_cnt
      then ok (send_info connfd s)
      else if leb max_fd connfd
      then fault out_of_bounds
      else watched

-- the case of EPOLLRDHUP, EPOLLHUP and EPOLLERR
unfoldable pub on_closed : ℕ → Server → Outcome Server
on_closed fd s = do t ← call_timer (s.timer_of fd) fd s; ok (del_of (s.timer_of fd) t)

-- pool->Append, whose result is not used
unfoldable pub append_task : ℕ → Server → Server
append_task fd s = record s { tasks = if too_much s.tasks then s.tasks else s.tasks ++ fd ∷ [] }

-- `if (tempTimer)`, and the expiry is put off
unfoldable pub put_off : ℕ → ℕ → Server → Outcome Server
put_off timer now s = if timer == 0 then ok s else do
  heap' ← adjust (set_expire s.heap timer (now + 3 * time_slot)) timer
  ok (record s { heap = heap' })

-- the branch where Read gave false
unfoldable pub after_failed_read : ℕ → Server → Outcome Server
after_failed_read fd s =
    if s.timer_of fd == 0
    then fault null_pointer
    else if (s.heap.timers (s.timer_of fd)).has_callback
    then on_closed fd s
    else ok s

-- The case of EPOLLIN for a connection, from Read on. A call of Read that waits for more events than
-- are given is out of fuel.
abbrev pub after_read : ℕ → ℕ → Server → Http × Progress → Outcome Server
after_read fd now s (h, Progress.returned true) =
    put_off (s.timer_of fd) now (append_task fd (record s { https = update s.https fd h }))
after_read fd now s (h, Progress.returned false) =
    after_failed_read fd (record s { https = update s.https fd h })
after_read fd now s (h, Progress.looping) = fault no_fuel

unfoldable pub on_readable : ℕ → List Received → ℕ → Server → Outcome Server
on_readable fd events now s = after_read fd now s (read events (s.https fd))

-- the case of EPOLLOUT, from Write on
abbrev pub after_write : ℕ → ℕ → Server → Writing → Outcome Server
after_write fd now s r =
    let s1 = record s { https = update s.https fd r.http; world = r.world } in
    let closed = if s.timer_of fd == 0 then ok s1 else on_closed fd s1 in
    let kept = put_off (s.timer_of fd) now s1 in
    elim r.progress [
      | Progress.returned done ↦ if done then kept else closed
      | Progress.looping ↦ fault no_fuel
    ]

unfoldable pub on_writable : ℕ → List Written → ℕ → Server → Outcome Server
on_writable fd events now s = do r ← write events (s.https fd) s.world; after_write fd now s r

-- the callbacks that Tick makes, in order
abbrev pub call_all : List ℕ → Server → Server
call_all [] s = s
call_all (fd ∷ fds) s = call_all fds (call_back fd s)

-- TimerHandler; the next alarm is left out
unfoldable pub timer_handler : ℕ → Server → Outcome Server
timer_handler now s = do r ← tick now s.heap; ok (call_all r.1 (record s { heap = r.0 }))
