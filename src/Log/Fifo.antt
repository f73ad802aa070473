-- ===== src/Log/Fifo.antt =====
-- The threads of the log (log/log.cpp): calls of TryAppendLog and the thread of PersistLog, in any
-- order. Each step is what a thread does between Lock and Unlock, or what PersistLog does between its
-- two, or the reset of m_uLastLogFailTime, which a call does before it locks.
pub mod Taken
pub mod Reset
pub mod Order
pub mod Lossless
pub mod Drain
pub mod Bounded
mod Tests
use wslyh.Base.{
  Bool, Bytes, Option, false, if◌then◌else◌, length, ok, take, true, ℕ, ◌++◌, ◌<◌, ◌==◌, ◌≡◌, ◌≤◌,
}
use wslyh.Log.Cell.{persist}
use wslyh.Log.Ring.{RingLog, append_line, cell, claim, release}

-- where the thread of PersistLog is: before its first Lock, between its Unlock and fwrite, behind it
pub data Phase : Type 0 where
  waiting writing written : Phase

-- `calling` is whether a call of TryAppendLog is between its reset and its Unlock. `accepted` has the
-- lines whose calls noted no failure.
pub record System : Type 0 where
  pub log : RingLog
  pub calling : Bool
  pub phase : Phase
  pub file : Bytes
  pub accepted : Bytes

module _ (shmget : ℕ → Option ℕ) where
  -- One call of TryAppendLog at a time is between its reset and its Unlock: a second thread would set
  -- m_uLastLogFailTime outside the lock while the first uses it. A line of `len` bytes that the array
  -- holds and that is no longer than a cell. fwrite writes all that it is given; where DecisFile fails,
  -- PersistLog gives up and starts anew.
  pub data Step (s : System) : System → Type 0 where
    reset :
        s.calling ≡ false
        → Step s (record s { log = record s.log { last_log_fail_time = 0 }; calling = true })
    append :
        (log_line : Bytes) (len cur_sec : ℕ) (t : RingLog) (flag : Bool)
        → s.calling ≡ true
        → len ≤ length log_line
        → len ≤ s.log.one_buff_len
        → 0 < cur_sec
        → append_line shmget log_line len cur_sec s.log ≡ ok (t, flag)
        → Step s (record s {
          log = t;
          calling = false;
          accepted =
              if t.last_log_fail_time == 0 then s.accepted ++ take len log_line else s.accepted;
        })
    find_nothing : s.phase ≡ Phase.waiting → claim s.log ≡ ok (s.log, false) → Step s s
    take_cell :
        (t : RingLog)
        → s.phase ≡ Phase.waiting
        → claim s.log ≡ ok (t, true)
        → Step s (record s { log = t; phase = Phase.writing })
    give_up : s.phase ≡ Phase.writing → Step s (record s { phase = Phase.waiting })
    write_file :
        (text : Bytes)
        → s.phase ≡ Phase.writing
        → persist (cell s.log s.log.prst_buf).cur_length (cell s.log s.log.prst_buf) ≡ ok text
        → Step s (record s { file = s.file ++ text; phase = Phase.written })
    free_cell :
        (t : RingLog)
        → s.phase ≡ Phase.written
        → release s.log ≡ ok t
        → Step s (record s { log = t; phase = Phase.waiting })

  pub data Reach (s : System) : System → Type 0 where
    here : Reach s s
    next : {t u : System} → Reach s t → Step t u → Reach s u
