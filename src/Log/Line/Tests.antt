-- ===== src/Log/Line/Tests.antt =====
-- Runs of TryAppendLog, with a clock that holds no text yet.
use wslyh.Log.Ring.Chain.{texts}
use wslyh.Log.Ring.Invariant.{IsRing}
use wslyh.Log.Ring.Append.{Appended}
use wslyh.Log.Ring.Construct.{head_address, made, made-IsRing, second_address}
use wslyh.Base.{
  Bool, Bytes, List, Option, Outcome, [], arith, c_string, codes, digits_onto, false, fault, length,
  ok, out_of_bounds, refl, replicate, some, take, ℕ, ◌+◌, ◌>>=◌, ◌∷◌, ◌≡◌, ◌≢◌, ◌≤◌,
}
use wslyh.Log.{Tm, UtcTime, get_cur_time}
use wslyh.Log.Cell.{Address, get_free_len, new_cell}
use wslyh.Log.Ring.{RingLog, shm_key}
use wslyh.Log.Line.{Logger, fill_line, is_paused, line_prefix, try_append_log}
use wslyh.Log.Line.Whole.{try_append_log-Appended, try_append_log-too_long}

abbrev fixed_time : ℕ → Tm
fixed_time t = record {
  tm_sec = 5;
  tm_min = 2;
  tm_hour = 1;
  tm_mday = 1;
  tm_mon = 0;
  tm_year = 125;
}

abbrev silent_clock : UtcTime
silent_clock = record {
  time_cache = replicate 20 0;
  year = 0;
  month = 0;
  day = 0;
  hour = 0;
  minute = 0;
  sec = 0;
  cache_sec = 60;
  cache_min = 1;
}

abbrev segment_of : ℕ → Option ℕ
segment_of k = some k

segment_of-injective : (j k i : ℕ) → segment_of j ≡ some i → segment_of k ≡ some i → j ≡ k
segment_of-injective j k i p q = cc

abbrev before : RingLog
before = record {
  memory = λ i. new_cell i 5000 (replicate 5000 0);
  attached = 0;
  buff_cnt = 0;
  cur_buf = record { segment = 0; attachment = 0 };
  prst_buf = record { segment = 0; attachment = 0 };
  one_buff_len = 5000;
  last_log_fail_time = 0;
  prst_shm_id = 0;
}

keys_apart : shm_key ≢ shm_key + 1
keys_apart e = absurd (omega (arith, e))

abbrev two_cells : RingLog
two_cells = made segment_of before shm_key (shm_key + 1) keys_apart refl refl

abbrev both : List Address
both =
    head_address segment_of before shm_key (shm_key + 1) keys_apart refl refl
    ∷ second_address segment_of before shm_key (shm_key + 1) keys_apart refl refl
    ∷ []

two_cells-IsRing : IsRing segment_of [] both two_cells
two_cells-IsRing =
    made-IsRing segment_of before shm_key (shm_key + 1) keys_apart refl refl (omega arith)
      (λ i. omega arith)

abbrev logger : Logger
logger = record { ring = two_cells; time = silent_clock }

-- "[I][.000]", where the clock has no text
abbrev prefix : Bytes
prefix = codes "[I][.000]"

prefix-printed :
    line_prefix (codes "[I]") (get_cur_time fixed_time 60 0 silent_clock).0 0 ≡ ok prefix
unfolding line_prefix get_cur_time c_string digits_onto
prefix-printed = refl

abbrev long_text : Bytes
long_text = replicate 4100 b'x'

awake : is_paused (get_cur_time fixed_time 60 0 silent_clock).1 0 ≡ false
unfolding is_paused
awake = refl

try_append_log-too_long_example :
    try_append_log segment_of fixed_time (codes "[I]") long_text 60 0 logger ≡ fault out_of_bounds
unfolding get_cur_time get_free_len
try_append_log-too_long_example =
    try_append_log-too_long segment_of fixed_time (codes "[I]") long_text prefix 60 0 logger awake
      prefix-printed (omega arith) (omega arith) (omega arith) refl (omega arith)

abbrev word : Bytes
word = codes "up"

abbrev line : Bytes
line = fill_line prefix word

try_append_log-Appended_example :
    (read : 11 ≤ length line) × (o : Outcome (RingLog × Bool)) × Appended segment_of line 11 read 60
      []
      (texts two_cells.memory both)
      two_cells
      o
    × (take 11 line ≡ codes "[I][.000]up")
    × (try_append_log segment_of fixed_time (codes "[I]") word 60 0 logger
        ≡ (o >>= λ r. ok (record { ring = r.0; time = silent_clock }, r.1)))
unfolding get_cur_time
try_append_log-Appended_example =
    try_append_log-Appended segment_of fixed_time (codes "[I]") word prefix 60 0 logger
      segment_of-injective awake prefix-printed (omega arith) (omega arith) [] both two_cells-IsRing
      (omega arith)
