-- ===== src/Lib.antt =====
-- WSlyh: a web server with an epoll loop, a thread pool, a timer heap and an asynchronous log.
--
-- The main loop (main.cpp) accepts connections, and for each keeps a CHttp and a timer. It reads into
-- the connection's buffer and hands the connection to the thread pool, whose workers call
-- CHttp::HttpParse: this parses the request and composes a response, which the main loop then writes.
-- Every use of a connection puts its timer off; the timer heap closes connections that time out.
--
-- Base and its children: names of the libraries, tests, int arithmetic, lists, and Outcome, the way
-- a piece of C++ ends: with a value or with a fault (undefined behaviour or an uncaught exception).
-- Request (http/http.h, SHttpRequest): the request and its Init; Request/Chars has the <ctype.h>
-- tests and atoi, Request/Step the cases of the switch in ParseInternal (http/http.cpp),
-- Request/Loop its loop. A pointer into the buffer is an offset. Request/Safety, Resume, Body and
-- Message hold the proofs; Locals and Cases are the lemmas of Safety, and Tokens, Fields, Line,
-- Ending and Printed those of Message and Body, one for each piece of a request.
-- Timer (http/timer.h, http/timer.cpp): the heap over a store of timers; a pointer is a number and
-- 0 is null. HeapDown and AddTimer loop on fuel, cur_num + 1 and the start slot + 1 rounds, and
-- Tick on cur_num + 1 rounds; the theorems show that no fuel runs out. Timer/Order has the
-- invariant.
-- Http (http/http.h and http/http.cpp, CHttp): the connection and the descriptors' registration;
-- Http/Lines has AddLine and its callers, Http/Respond ParseRead, ParseWrite and HttpParse,
-- Http/Transfer Read and Write. What recv and writev return is a list of events, and what stat and
-- mmap find is an argument; mmap of a file that stat shows to be readable is taken to succeed.
-- Decimal printing has fuel for twenty digits, more than an int has. Http/Session puts Read,
-- HttpParse and Write together, and Http/Unanswered Read and HttpParse. The file that is served is
-- always m_aFile, ./1.html.
-- Log (log/log.h, UTC_Time): the clock of the log and the text it keeps; localtime_r is a
-- parameter. Log/Cached has the proof. Whether GetCurTime is given a place for the milliseconds is
-- left open.
-- Log/Cell (log/log.h, CBufferCell): a buffer and the bytes behind it in its shared segment.
-- Log/Ring (log/log.cpp, CRingLog): the ring of buffers, with CreateCellBuffer, the constructor,
-- and what TryAppendLog and PersistLog do under the lock; shmget is a parameter, and a pointer is a
-- segment with the number of the call of shmat that gave it, since two addresses of a segment are
-- different pointers to one memory. Log/Ring/Invariant has what holds of the ring between the
-- operations, Chain the lists of addresses, Filled, Expand, Grow, Append and Accept the lemmas of
-- TryAppendLog, Persist those of PersistLog, Construct the ring that the constructor makes, and
-- Limit its memory. Log/Left (log/shmtool.cpp): the walk of the recovery tool, on fuel, for which
-- the cells of the ring are enough. Log/Clear (GetPrstCBShmId): the removal of the ring of an
-- earlier run. Log/Fifo: the threads of the log as steps in any order; Taken, Order, Drain, Bounded
-- and Lossless have their proofs, Reset what the reset of m_uLastLogFailTime gives. That reset is
-- outside the lock and a step of its own; any threads may call TryAppendLog, but one call at a time is
-- between its reset and its Unlock, since the reset of another would there change what the locked part
-- reads.
-- Log/Line: TryAppendLog as a whole, with the pause after a failure and the array of 4 KB that the
-- line is printed into; the text that vsnprintf makes of the format is a parameter. Log/File:
-- DecisFile, over files with a structured name, and the part of PersistLog between its locks, which
-- writes the text of a cell to the file; whether fopen succeeds is a parameter. Log/File/Rotate has
-- the lemmas of the renaming, Joined, History and Saved the proof for the files of a day, and
-- NextDay that for the day after.
-- Log/Level: the level that InitLogPath keeps, and the macros of the levels. Log/Names: the names
-- that InitLogPath keeps, and the paths that DecisFile prints, which Log/File takes to be different
-- for different days and numbers. Log/Shmtool and Log/Recover (log/shmtool.cpp): the arguments of
-- the recovery tool, and its walk with -d.
-- Pool (threadpool/threadpool.h): the queue of tasks, with Append and Work as steps of threads in
-- any order, where a worker holds the lock while HttpParse runs, and the array of threads from the
-- constructor to the destructor. Pool/Queue and Pool/Start have the proofs.
-- Server (main.cpp): the cases of the event loop for connections, over the connections, the heap
-- and the queue of the pool, level triggered as main.cpp defines it; what accept, new, time, recv
-- and writev give are arguments. A descriptor from accept that is MAX_FD or more is out of the bounds
-- of the arrays. Server/Loop: the loop
-- of main, with the signals and the flags, over the events that epoll_wait gives; Server/Start: main
-- before it, with the pool as its constructor leaves it, where atoi and the results of the calls are
-- parameters. Server/System: the
-- loop and the workers in any order, each case of the loop and each call of HttpParse as one step.
-- Server/Watch, Cases, Traffic, Quiet, Expiry and Twice have the proofs of the cases, Server/Sound the
-- invariant, and Server/System/Handle, Safe and Idle the proofs for the loop.
-- Not modelled: of main.cpp, AddSig and the release of the memory; the locks
-- (lock), which only call pthread; and the timed wait of PersistLog.
pub mod Base
pub mod Request
pub mod Timer
pub mod Http
pub mod Log
pub mod Pool
pub mod Server
