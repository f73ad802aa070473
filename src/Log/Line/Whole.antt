-- ===== src/Log/Line/Whole.antt =====
-- What TryAppendLog makes of a line.
use wslyh.Log.Ring.Chain.{texts}
use wslyh.Log.Ring.Invariant.{IsRing}
use wslyh.Log.Ring.Append.{Appended}
use wslyh.Log.Ring.Accept.{append_line-Appended}
use wslyh.Log.Cell.{Address, BufferCell, BufferStatus, append, get_free_len, is_free-free}
use wslyh.Base.{
  Bool, Bytes, List, Option, Outcome, ap, arith, false, fault, leb, length, length-print_at,
  length-replicate, ltb, ok, out_of_bounds, print_at, read_bytes, refl, replicate, some, take,
  take-print_at_all, true, ℕ, ◌%◌, ◌++◌, ◌+◌, ◌-◌, ◌<◌, ◌>>=◌, ◌^◌, ◌∙◌, ◌≡◌, ◌≤◌,
}
use wslyh.Log.{Tm, UtcTime, get_cur_time}
use wslyh.Log.Ring.{RingLog, append_line, append_to_cur, cell}
use wslyh.Log.Line.{Logger, fill_line, is_paused, line_prefix, one_log_len, try_append_log}

module _ (prefix text : Bytes) where
  first_part : Bytes
  first_part = print_at (replicate one_log_len 0) 0 one_log_len prefix

  length-fill_line : length (fill_line prefix text) ≡ one_log_len
  unfolding fill_line
  length-fill_line =
      length-print_at (print_at (replicate one_log_len 0) 0 one_log_len prefix) (length prefix)
        (one_log_len - length prefix) text
      ∙ length-print_at (replicate one_log_len 0) 0 one_log_len prefix
      ∙ length-replicate {A = ℕ} one_log_len 0

  take-fill_line :
      length prefix + length text < one_log_len
      → take (length prefix + length text) (fill_line prefix text) ≡ prefix ++ text
  unfolding fill_line
  take-fill_line l =
      let a = print_at (replicate one_log_len 0) 0 one_log_len prefix in
      let size : length a ≡ one_log_len =
        length-print_at (replicate one_log_len 0) 0 one_log_len prefix
        ∙ length-replicate {A = ℕ} one_log_len 0 in
      let room : one_log_len ≤ length (replicate {A = ℕ} one_log_len 0) =
        omega (arith, length-replicate {A = ℕ} one_log_len 0) in
      let n : length prefix ≡ 0 + length prefix = omega arith in
      take-print_at_all a (length prefix) (one_log_len - length prefix) text (omega arith)
        (omega (arith, size))
      ∙ ap (λ b. b ++ text)
          (ap (λ k. take k a) n
            ∙ take-print_at_all (replicate one_log_len 0) 0 one_log_len prefix (omega arith) room)

append-beyond :
    (log_data : Bytes) (n : ℕ) (c : BufferCell)
    → n ≤ get_free_len c
    → length log_data < n
    → append log_data n c ≡ fault out_of_bounds
unfolding append read_bytes
append-beyond log_data n c room over = ground arith

module _ (shmget : ℕ → Option ℕ) (localtime : ℕ → Tm) (lvl text prefix : Bytes) (now usec : ℕ)
    (s : Logger) where
  abbrev clocked : UtcTime × ℕ × ℕ
  clocked = get_cur_time localtime now usec s.time

  abbrev cur_sec : ℕ
  cur_sec = clocked.1

  abbrev ready : RingLog
  ready = record s.ring { last_log_fail_time = 0 }

  abbrev len : ℕ
  len = length prefix + length text

  module _ (awake : is_paused cur_sec s.ring.last_log_fail_time ≡ false)
      (printed : line_prefix lvl clocked.0 clocked.2 ≡ ok prefix)
      (small : length prefix ≤ one_log_len) (no_wrap : len < 2 ^ 32) where
    through : try_append_log shmget localtime lvl text now usec s ≡ (
        append_line shmget (fill_line prefix text) len cur_sec ready >>= λ r.
        ok (record s { ring = r.0; time = clocked.0 }, r.1))
    unfolding try_append_log
    through =
        let fits : ltb one_log_len (length prefix) ≡ false = ground arith in
        let unwrapped : len % 2 ^ 32 ≡ len = omega arith in
        rw (awake, printed, fits, unwrapped) refl

  -- A call of TryAppendLog that no pause stops, for a prefix and a text that are shorter than the
  -- array together and no longer than a cell, at a time after 0, on a ring in order, where shmget
  -- gives different segments for different keys: what is appended is the prefix, with the level and
  -- the time, and the whole text, and the call ends as the part under the lock does.
  pub try_append_log-Appended :
      (injective : (j k i : ℕ) → shmget j ≡ some i → shmget k ≡ some i → j ≡ k)
      (awake : is_paused cur_sec s.ring.last_log_fail_time ≡ false)
      (printed : line_prefix lvl clocked.0 clocked.2 ≡ ok prefix) (short : len < one_log_len)
      (later : 0 < cur_sec) (fulls frees : List Address)
      → IsRing shmget fulls frees s.ring
      → len ≤ s.ring.one_buff_len
      → (read : len ≤ length (fill_line prefix text)) × (o : Outcome (RingLog × Bool)) × Appended
          shmget
          (fill_line prefix text)
          len
          read
          cur_sec
          fulls
          (texts s.ring.memory (fulls ++ frees))
          ready
          o
        × (take len (fill_line prefix text) ≡ prefix ++ text)
        × (try_append_log shmget localtime lvl text now usec s
            ≡ (o >>= λ r. ok (record s { ring = r.0; time = clocked.0 }, r.1)))
  try_append_log-Appended injective awake printed short later fulls frees r fits =
      let read : len ≤ length (fill_line prefix text) =
        omega (arith, length-fill_line prefix text) in
      (
        read,
        append_line shmget (fill_line prefix text) len cur_sec ready,
        append_line-Appended shmget injective (fill_line prefix text) len read cur_sec later fulls
            frees ready
            (record {
              base = r.base;
              chain = r.chain;
              cur = r.cur;
              full = r.full;
              free = r.free;
              blank = r.blank;
              prst_id = r.prst_id;
            })
            refl fits,
        take-fill_line prefix text short,
        through awake printed (omega arith) (omega arith),
      )

  -- A call of TryAppendLog that no pause stops, for a prefix that fits the array and a text with
  -- which it does not: the length that vsnprintf reports is taken for what was printed, and where the
  -- current cell is free and has room for as much, bytes behind the array are read.
  pub try_append_log-too_long :
      (awake : is_paused cur_sec s.ring.last_log_fail_time ≡ false)
      (printed : line_prefix lvl clocked.0 clocked.2 ≡ ok prefix)
      → length prefix ≤ one_log_len
      → one_log_len < len
      → len < 2 ^ 32
      → (cell s.ring s.ring.cur_buf).status ≡ BufferStatus.free
      → len ≤ get_free_len (cell s.ring s.ring.cur_buf)
      → try_append_log shmget localtime lvl text now usec s ≡ fault out_of_bounds
  unfolding append_line append_to_cur
  try_append_log-too_long awake printed small long no_wrap free room =
      let over : length (fill_line prefix text) < len =
        omega (arith, length-fill_line prefix text) in
      let fits : leb len (get_free_len (cell s.ring s.ring.cur_buf)) ≡ true = ground arith in
      rw
        (
          through awake printed small no_wrap,
          is_free-free (cell s.ring s.ring.cur_buf) free,
          fits,
          append-beyond (fill_line prefix text) len (cell s.ring s.ring.cur_buf) room over,
        )
        refl
