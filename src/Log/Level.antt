-- ===== src/Log/Level.antt =====
-- The levels of the log: InitLogPath (log/log.cpp), LOG_INIT and the macros LOG_FATAL to LOG_TRACE
-- (log/log.h) over TryAppendLog.
use wslyh.Base.{
  Bool, Bytes, Option, Outcome, arith, codes, false, if◌then◌else◌, leb, ltb, negsuc, ok, pos, refl,
  true, ℕ, ℤ, ◌<◌, ◌>>=◌, ◌≡◌, ◌≤◌,
}
use wslyh.Log.{Tm}
use wslyh.Log.Line.{Logger, try_append_log}

-- LOG_LEVEL; `normal` is the macro LOG_NORMAL, which uses INFO.
pub data LogLevel : Type 0 where
  fatal error warn info debug trace normal : LogLevel

-- the number that enum class LOG_LEVEL gives
abbrev pub number_of : LogLevel → ℕ
number_of LogLevel.fatal = 1
number_of LogLevel.error = 2
number_of LogLevel.warn = 3
number_of LogLevel.info = 4
number_of LogLevel.debug = 5
number_of LogLevel.trace = 6
number_of LogLevel.normal = 4

-- the text of the level
abbrev pub label_of : LogLevel → Bytes
label_of LogLevel.fatal = codes "[FATAL]"
label_of LogLevel.error = codes "[ERROR]"
label_of LogLevel.warn = codes "[WARN]"
label_of LogLevel.info = codes "[INFO]"
label_of LogLevel.debug = codes "[DEBUG]"
label_of LogLevel.trace = codes "[TRACE]"
label_of LogLevel.normal = codes "[INFO]"

abbrev pub lt_int : ℤ → ℤ → Bool
lt_int (pos m) (pos n) = ltb m n
lt_int (pos m) (negsuc n) = false
lt_int (negsuc m) (pos n) = true
lt_int (negsuc m) (negsuc n) = ltb n m

-- m_eLevel after InitLogPath with a level, where it was `old`
unfoldable pub init_level : ℤ → ℤ → ℤ
init_level level old =
    let high = if lt_int (pos 6) level then pos 6 else old in
    let low = if lt_int level (pos 1) then pos 1 else high in level

-- `>=` of m_eLevel and a level
unfoldable pub reaches : ℤ → ℕ → Bool
reaches (pos m) n = leb n m
reaches (negsuc m) n = false

module _ (shmget : ℕ → Option ℕ) (localtime : ℕ → Tm) where
  -- the macro for the level: `text` is what vsnprintf makes of its arguments
  unfoldable pub log_at : LogLevel → ℤ → Bytes → ℕ → ℕ → Logger → Outcome Logger
  log_at lvl level text now usec s =
      let appended : Outcome Logger = do
        (t, done) ← try_append_log shmget localtime (label_of lvl) text now usec s
        ok t
      in elim lvl [
        | LogLevel.fatal ↦ appended
        | LogLevel.error ↦ if reaches level 2 then appended else ok s
        | LogLevel.warn ↦ if reaches level 3 then appended else ok s
        | LogLevel.info ↦ if reaches level 4 then appended else ok s
        | LogLevel.debug ↦ if reaches level 5 then appended else ok s
        | LogLevel.trace ↦ if reaches level 6 then appended else ok s
        | LogLevel.normal ↦ if reaches level 4 then appended else ok s
      ]

-- the bounds that InitLogPath tests
abbrev pub bounded : ℤ → ℤ
bounded (pos n) = if ltb 6 n then pos 6 else if ltb n 1 then pos 1 else pos n
bounded (negsuc n) = pos 1

reaches-bounded : (level : ℤ) (k : ℕ) → 1 < k → k ≤ 6 → reaches level k ≡ reaches (bounded level) k
unfolding reaches
reaches-bounded (pos n) k low high = ground arith
reaches-bounded (negsuc n) k low high = ground arith

-- InitLogPath keeps the level that it was given, without the bounds FATAL and TRACE that it tests, but
-- each of the macros does the same as with the level in these bounds: from a level of TRACE on, all of
-- them call TryAppendLog, and up to a level of FATAL only LOG_FATAL does.
pub log_at-bounded :
    (shmget : ℕ → Option ℕ) (localtime : ℕ → Tm) (lvl : LogLevel) (level old : ℤ) (text : Bytes)
    (now usec : ℕ) (s : Logger)
    → log_at shmget localtime lvl (init_level level old) text now usec s
      ≡ log_at shmget localtime lvl (bounded level) text now usec s
unfolding log_at init_level
log_at-bounded shmget localtime LogLevel.fatal level old text now usec s = refl
log_at-bounded shmget localtime LogLevel.error level old text now usec s =
    rw (reaches-bounded level 2 (omega arith) (omega arith)) refl
log_at-bounded shmget localtime LogLevel.warn level old text now usec s =
    rw (reaches-bounded level 3 (omega arith) (omega arith)) refl
log_at-bounded shmget localtime LogLevel.info level old text now usec s =
    rw (reaches-bounded level 4 (omega arith) (omega arith)) refl
log_at-bounded shmget localtime LogLevel.debug level old text now usec s =
    rw (reaches-bounded level 5 (omega arith) (omega arith)) refl
log_at-bounded shmget localtime LogLevel.trace level old text now usec s =
    rw (reaches-bounded level 6 (omega arith) (omega arith)) refl
log_at-bounded shmget localtime LogLevel.normal level old text now usec s =
    rw (reaches-bounded level 4 (omega arith) (omega arith)) refl
