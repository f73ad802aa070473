-- ===== src/Log/Fifo/Tests.antt =====
-- A log of small cells, on a system that gives each key the segment of its number.
use wslyh.Log.Recover.{Recovered, recover, recover-Recovered}
use wslyh.Log.Fifo.Bounded.{memory-bounded}
use wslyh.Log.Ring.Chain.{texts}
use wslyh.Log.Ring.Accept.{append_line-Appended}
use wslyh.Log.Ring.Append.{Appended}
use wslyh.Log.Ring.Construct.{head_address, made, made-IsRing, second_address}
use wslyh.Log.Fifo.Lossless.{claim-succeeds, fresh}
use wslyh.Log.Fifo.{Phase, Reach, Step, System}
use wslyh.Base.{
  Bool, Bytes, List, Option, Outcome, [], arith, false, fault, length, none, ok, read_bytes, refl,
  replicate, some, true, write_bytes, ℕ, ◌%◌, ◌*◌, ◌+◌, ◌^◌, ◌∷◌, ◌≡◌, ◌≢◌, ◌≤◌,
}
use wslyh.Log.Cell.{
  Address, append, clear_buffer, get_free_len, is_empty, is_free, new_cell, persist,
}
use wslyh.Log.Ring.{
  RingLog, append_line, append_to_cur, claim, construct, log_file_mem_limit, log_mem_set, move_on,
  release, shm_key,
}

abbrev segment_of : ℕ → Option ℕ
segment_of k = some k

segment_of-injective : (j k i : ℕ) → segment_of j ≡ some i → segment_of k ≡ some i → j ≡ k
segment_of-injective j k i p q = cc

abbrev before : RingLog
before = record {
  memory = λ i. new_cell i 4 (replicate 4 7);
  attached = 0;
  buff_cnt = 0;
  cur_buf = record { segment = 0; attachment = 0 };
  prst_buf = record { segment = 0; attachment = 0 };
  one_buff_len = 4;
  last_log_fail_time = 0;
  prst_shm_id = 0;
}

abbrev log_of : Option RingLog → RingLog
log_of o = elim o [ none ↦ before | some s ↦ s ]

abbrev after : Outcome (RingLog × Bool) → RingLog
after o = elim o [ ok v ↦ v.0 | fault f ↦ before ]

abbrev small_log : RingLog
small_log = log_of (construct segment_of before)

small_log-constructed : construct segment_of before ≡ some small_log
unfolding construct
small_log-constructed = refl

abbrev appended_to : Bytes → ℕ → RingLog → RingLog
appended_to line len s =
    after (append_line segment_of line len 10 (record s { last_log_fail_time = 0 }))

abbrev one_line : RingLog
one_line = appended_to (1 ∷ 2 ∷ 3 ∷ []) 3 small_log

abbrev two_lines : RingLog
two_lines = appended_to (4 ∷ 5 ∷ []) 2 one_line

abbrev freed : RingLog
freed = elim (release two_lines) [ ok s ↦ s | fault f ↦ before ]

abbrev persisted : System
persisted = record {
  log = freed;
  calling = false;
  phase = Phase.waiting;
  file = 1 ∷ 2 ∷ 3 ∷ [];
  accepted = 1 ∷ 2 ∷ 3 ∷ 4 ∷ 5 ∷ [];
}

run : Reach segment_of (fresh small_log) persisted
unfolding construct append_line append_to_cur append is_free get_free_len move_on claim is_empty
    persist release clear_buffer read_bytes write_bytes
run =
    Reach.next
      (Reach.next
        (Reach.next
          (Reach.next
            (Reach.next
              (Reach.next (Reach.next Reach.here (Step.reset refl)) (
                Step.append (1 ∷ 2 ∷ 3 ∷ []) 3 10 one_line false refl (omega arith) (omega arith)
                  (omega arith) refl))
              (Step.reset refl))
            (Step.append (4 ∷ 5 ∷ []) 2 10 two_lines true refl (omega arith) (omega arith)
              (omega arith) refl))
          (Step.take_cell two_lines refl refl))
        (Step.write_file (1 ∷ 2 ∷ 3 ∷ []) refl refl))
      (Step.free_cell freed refl refl)

room : (i : ℕ) → before.one_buff_len ≤ length (before.memory i).contents
room i = omega arith

claim-succeeds_example : (u : RingLog) × (found : Bool) × (claim freed ≡ ok (u, found))
claim-succeeds_example =
    claim-succeeds segment_of segment_of-injective before small_log small_log-constructed
      (omega arith) room run refl

keys_apart : shm_key ≢ shm_key + 1
keys_apart e = absurd (omega (arith, e))

abbrev two_cells : RingLog
two_cells = made segment_of before shm_key (shm_key + 1) keys_apart refl refl

abbrev both : List Address
both =
    head_address segment_of before shm_key (shm_key + 1) keys_apart refl refl
    ∷ second_address segment_of before shm_key (shm_key + 1) keys_apart refl refl
    ∷ []

append_line-Appended_example :
    Appended segment_of
      (1 ∷ 2 ∷ 3 ∷ [])
      3
      (omega arith)
      10
      []
      (texts two_cells.memory both)
      two_cells
      (append_line segment_of (1 ∷ 2 ∷ 3 ∷ []) 3 10 two_cells)
append_line-Appended_example =
    append_line-Appended segment_of segment_of-injective (1 ∷ 2 ∷ 3 ∷ []) 3 (omega arith) 10
      (omega arith) [] both two_cells
      (made-IsRing segment_of before shm_key (shm_key + 1) keys_apart refl refl (omega arith) room)
      refl (omega arith)

recover-Recovered_example : Recovered true 77 both two_cells (recover 2 true 77 two_cells)
recover-Recovered_example =
    recover-Recovered segment_of [] both two_cells true 77
      (made-IsRing segment_of before shm_key (shm_key + 1) keys_apart refl refl (omega arith) room)

abbrev large : RingLog
large = record before { one_buff_len = 10 * 1024 * 1024 }

abbrev large_log : RingLog
large_log = log_of (construct segment_of large)

large_log-constructed : construct segment_of large ≡ some large_log
unfolding construct
large_log-constructed = refl

memory-bounded_example :
    (10 * 1024 * 1024 * 3 ≤ log_file_mem_limit)
    × (10 * 1024 * 1024 * 4 % 2 ^ 32 ≡ 10 * 1024 * 1024 * 4)
unfolding log_mem_set construct
memory-bounded_example =
    memory-bounded segment_of 4096 large large_log large_log-constructed refl Reach.here
