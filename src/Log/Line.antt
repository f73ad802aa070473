-- ===== src/Log/Line.antt =====
-- log/log.cpp, CRingLog::TryAppendLog as a whole: the time, the pause after a failure, and the array
-- that the line is printed into.
pub mod Whole
mod Tests
use wslyh.Base.{
  Bool, Bytes, Option, Outcome, [], c_string, false, fault, if◌then◌else◌, length, ltb, not, ok,
  out_of_bounds, padded, print_at, replicate, ℕ, ◌%◌, ◌&&◌, ◌*◌, ◌++◌, ◌+◌, ◌-◌, ◌==◌, ◌>>=◌, ◌^◌,
  ◌∷◌,
}
use wslyh.Log.{Tm, UtcTime, get_cur_time}
use wslyh.Log.Ring.{RingLog, append_line}

abbrev pub one_log_len : ℕ
one_log_len = 4 * 1024

abbrev pub re_log_threshold : ℕ
re_log_threshold = 5

pub record Logger : Type 0 where
  pub ring : RingLog
  pub time : UtcTime

-- `%s[%s.%03d]`
unfoldable pub line_prefix : Bytes → UtcTime → ℕ → Outcome Bytes
line_prefix lvl time ms = do
  stamp ← c_string time.time_cache
  ok (lvl ++ b'[' ∷ (stamp ++ b'.' ∷ (padded 3 ms ++ b']' ∷ [])))

-- logLine after the two calls of printf
unfoldable pub fill_line : Bytes → Bytes → Bytes
fill_line prefix text =
    print_at (print_at (replicate one_log_len 0) 0 one_log_len prefix) (length prefix)
      (one_log_len - length prefix) text

-- whether the last failure is too near, with the difference of uint64_t
unfoldable pub is_paused : ℕ → ℕ → Bool
is_paused cur_sec last =
    not (last == 0) && ltb ((cur_sec + 2 ^ 64 - last) % 2 ^ 64) re_log_threshold

-- `text` is what vsnprintf makes of the format and its arguments, no longer than an int says. A
-- prefix longer than the array makes the size for the second call wrap around.
module _ (shmget : ℕ → Option ℕ) (localtime : ℕ → Tm) (lvl text : Bytes) (now usec : ℕ) where
  -- the part of TryAppendLog after the test of the pause
  unfoldable pub write_line : ℕ → ℕ → Logger → Outcome (Logger × Bool)
  write_line cur_sec ms s = do
    prefix ← line_prefix lvl s.time ms
    (if ltb one_log_len (length prefix)
        then fault out_of_bounds
        else append_line shmget (fill_line prefix text) ((length prefix + length text) % 2 ^ 32)
            cur_sec (record s.ring { last_log_fail_time = 0 })
          >>= λ r. ok (record s { ring = r.0 }, r.1))

  unfoldable pub try_append_log : Logger → Outcome (Logger × Bool)
  unfolding write_line
  try_append_log s =
      let (time, cur_sec, ms) = get_cur_time localtime now usec s.time in
      if is_paused cur_sec s.ring.last_log_fail_time
      then ok (record s { time = time }, false)
      else write_line cur_sec ms (record s { time = time })
