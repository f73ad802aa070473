-- ===== src/Log.antt =====
-- log/log.h: the clock of the log, which keeps the time of the day in print.
pub mod Cached
pub mod Cell
pub mod Ring
pub mod Left
pub mod Shmtool
pub mod Recover
pub mod Level
pub mod Names
pub mod Fifo
pub mod Clear
pub mod File
pub mod Line
mod Tests
use wslyh.Base.{Bytes, [], if◌then◌else◌, padded, print_at, ℕ, ◌%◌, ◌++◌, ◌+◌, ◌/◌, ◌==◌, ◌∷◌}

-- struct tm; the years count from 1900 and the months from 0.
pub record Tm : Type 0 where
  pub tm_sec : ℕ
  pub tm_min : ℕ
  pub tm_hour : ℕ
  pub tm_mday : ℕ
  pub tm_mon : ℕ
  pub tm_year : ℕ

pub record UtcTime : Type 0 where
  pub time_cache : Bytes
  pub year : ℕ
  pub month : ℕ
  pub day : ℕ
  pub hour : ℕ
  pub minute : ℕ
  pub sec : ℕ
  pub cache_sec : ℕ
  pub cache_min : ℕ

-- the text up to the seconds, `%04d-%02d-%02d %02d:%02d:`
abbrev pub minute_text : ℕ → ℕ → ℕ → ℕ → ℕ → Bytes
minute_text year month day hour minute =
    padded 4 year
    ++ b'-'
      ∷ (padded 2 month
          ++ b'-'
            ∷ (padded 2 day ++ b' ' ∷ (padded 2 hour ++ b':' ∷ (padded 2 minute ++ b':' ∷ []))))

abbrev pub add_time_all : UtcTime → UtcTime
add_time_all u = record u {
  time_cache =
      print_at u.time_cache 0 20
        (minute_text u.year u.month u.day u.hour u.minute ++ padded 2 u.sec);
}

abbrev pub add_time_sec : UtcTime → UtcTime
add_time_sec u = record u { time_cache = print_at u.time_cache 17 3 (padded 2 u.sec) }

-- `localtime` is localtime_r, and `now` the seconds that gettimeofday gives.
module _ (localtime : ℕ → Tm) where
  abbrev pub update_time : ℕ → UtcTime → UtcTime
  update_time now u = record u {
    cache_sec = now;
    cache_min = now / 60;
    year = (localtime now).tm_year + 1900;
    month = (localtime now).tm_mon + 1;
    day = (localtime now).tm_mday;
    hour = (localtime now).tm_hour;
    minute = (localtime now).tm_min;
    sec = (localtime now).tm_sec;
  }

  -- the constructor; `u` is the memory of the object
  abbrev pub utc_time : ℕ → UtcTime → UtcTime
  utc_time now u = add_time_all (update_time now u)

  -- the result is the time in seconds; `p_msec` gets the milliseconds
  unfoldable pub get_cur_time : ℕ → ℕ → UtcTime → UtcTime × ℕ × ℕ
  get_cur_time now usec u =
      let v = record u { cache_sec = now } in
      let changed =
        if now / 60 == v.cache_min
        then add_time_sec (record v { sec = now % 60 })
        else add_time_all (update_time now v) in
      let u' = if now == u.cache_sec then u else changed in (u', u'.cache_sec, usec / 1000)
