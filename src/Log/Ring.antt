-- ===== src/Log/Ring.antt =====
-- log/log.h and log/log.cpp, CRingLog: the ring of buffer cells, the producer's part of TryAppendLog
-- under the lock, and the two parts of PersistLog under the lock.
pub mod Chain
pub mod Invariant
pub mod Filled
pub mod Persist
pub mod Expand
pub mod Append
pub mod Grow
pub mod Accept
pub mod Construct
pub mod Limit
use mathlib.Core.Option
use wslyh.Base.{
  Bool, Bytes, Option, Outcome, failed_assert, false, fault, if◌then◌else◌, leb, ltb, none,
  null_pointer, ok, pos, some, suc, true, update, zero, ℕ, ◌%◌, ◌&&◌, ◌*◌, ◌+◌, ◌==◌, ◌>>=◌, ◌^◌,
}
use wslyh.Log.Cell.{
  Address, BufferCell, BufferStatus, append, clear_buffer, get_free_len, is_empty, is_free,
  new_cell,
}

-- `memory` is what the segments hold, by their id, and `attached` counts the calls of shmat.
-- `prst_shm_id` is the int that m_pPrstBCShmId points to.
pub record RingLog : Type 0 where
  pub memory : ℕ → BufferCell
  pub attached : ℕ
  pub buff_cnt : ℕ
  pub cur_buf : Address
  pub prst_buf : Address
  pub one_buff_len : ℕ
  pub last_log_fail_time : ℕ
  pub prst_shm_id : ℕ

abbrev pub shm_key : ℕ
shm_key = 500234

abbrev pub log_file_mem_limit : ℕ
log_file_mem_limit = 3 * 1024 * 1024 * 1024

-- LOG_MEM_SET: the length of a cell
unfoldable pub log_mem_set : ℕ → ℕ
log_mem_set mem_lmt =
    if ltb mem_lmt (10 * 1024 * 1024)
    then 10 * 1024 * 1024
    else if ltb (50 * 1024 * 1024) mem_lmt
    then 50 * 1024 * 1024
    else mem_lmt

-- the cell at an address
abbrev pub cell : RingLog → Address → BufferCell
cell s a = s.memory a.segment

abbrev pub with_cell : RingLog → Address → BufferCell → RingLog
with_cell s a c = record s { memory = update s.memory a.segment c }

-- p->m_pNext = q, and the id with it
abbrev pub set_next : Address → Address → RingLog → RingLog
set_next p q s =
    with_cell s p (record (cell s p) { next = some q; next_shm_id = pos (cell s q).shm_id })

-- p->m_pPre = q, and the id with it
abbrev pub set_pre : Address → Address → RingLog → RingLog
set_pre p q s =
    with_cell s p (record (cell s p) { pre = some q; pre_shm_id = pos (cell s q).shm_id })

abbrev pub set_full : Address → RingLog → RingLog
set_full p s = with_cell s p (record (cell s p) { status = BufferStatus.full })

-- `p == q` of pointers
unfoldable pub same_address : Address → Address → Bool
same_address p q = p.segment == q.segment && p.attachment == q.attachment

-- an access through a pointer
abbrev pub pointed : {A : Type 0} → Option A → Outcome A
pointed none = fault null_pointer
pointed (some a) = ok a

-- m_pCurBuf->Append(log_line, len)
unfoldable pub append_to_cur : Bytes → ℕ → RingLog → Outcome RingLog
append_to_cur log_line len s = do
  c ← append log_line len (cell s s.cur_buf)
  ok (with_cell s s.cur_buf c)

-- the ring closed behind `prev`, and both pointers set to its head
abbrev pub close_ring : Address → Address → RingLog → RingLog
close_ring head prev s =
    let closed = set_pre head prev (set_next prev head s) in
    record closed { cur_buf = head; prst_buf = head; prst_shm_id = (cell closed head).shm_id }

-- CreateCellBuffer, by the id that shmget gives for its key; shmat is taken to succeed. Where shmget
-- fails, the address is 0, `none`.
abbrev pub attach_cell : Option ℕ → RingLog → Option (Address × RingLog)
attach_cell none s = none
attach_cell (some id) s = some (
  record { segment = id; attachment = s.attached },
  record s {
    memory = update s.memory id (new_cell id s.one_buff_len (s.memory id).contents);
    attached = s.attached + 1;
  },
)

-- the rest of the constructor, which calls exit(1) where a cell is not had
abbrev pub if_made :
    Option (Address × RingLog)
    → (Address × RingLog → Option (Address × RingLog))
    → Option (Address × RingLog)
if_made none rest = none
if_made (some made) rest = rest made

-- `shmget key` is the id that shmget gives for a key, by the first call or the second, or `none`
-- where both fail.
module _ (shmget : ℕ → Option ℕ) where
  unfoldable pub create_cell_buffer : ℕ → RingLog → Option (Address × RingLog)
  create_cell_buffer key s = attach_cell (shmget key) s

  -- the loop of the constructor, for `rounds` more cells behind `prev`
  unfoldable pub construct_loop : ℕ → Address → RingLog → Option (Address × RingLog)
  unfolding create_cell_buffer
  construct_loop zero prev s = some (prev, s)
  construct_loop (suc rounds) prev s =
      if_made (create_cell_buffer (shm_key + 1) s)
        (λ made. construct_loop rounds made.0 (set_next prev made.0 (set_pre made.0 prev made.1)))

  -- The constructor from the creation of the head on; `s` has the memory it finds, and `none` is
  -- exit(1).
  unfoldable pub construct : RingLog → Option RingLog
  unfolding construct_loop
  construct s =
      Option.map (λ (made : Address × RingLog). made.1)
        (if_made (create_cell_buffer shm_key (record s { buff_cnt = 3; last_log_fail_time = 0 }))
          (λ head.
            if_made (construct_loop 2 head.0 head.1)
              (λ last. some (head.0, close_ring head.0 last.0 last.1))))

  -- a new cell between the current one and `next`
  unfoldable pub expand : Address → RingLog → Outcome RingLog
  unfolding create_cell_buffer
  expand next s = do
    (new, s0) ← pointed (create_cell_buffer (shm_key + s.buff_cnt) s)
    let s1 = record s0 { buff_cnt = s.buff_cnt + 1 }
    let s2 = set_next s.cur_buf new (set_pre new s.cur_buf s1)
    let s3 = set_pre next new (set_next new next s2)
    ok (record s3 { cur_buf = new })

  -- the move to the next cell, where the current one is full now
  unfoldable pub move_on : ℕ → RingLog → Outcome RingLog
  move_on cur_sec s = do
    next ← pointed (cell s s.cur_buf).next
    let at_limit = ltb log_file_mem_limit (s.one_buff_len * (s.buff_cnt + 1) % 2 ^ 32)
    let failed = record s { cur_buf = next; last_log_fail_time = cur_sec }
    (if is_free (cell s next)
        then ok (record s { cur_buf = next })
        else if at_limit
        then ok failed
        else expand next s)

  -- TryAppendLog between Lock and Unlock, with the flag for the signal
  unfoldable pub append_line : Bytes → ℕ → ℕ → RingLog → Outcome (RingLog × Bool)
  append_line log_line len cur_sec s =
      if is_free (cell s s.cur_buf) && leb len (get_free_len (cell s s.cur_buf))
      then (do t ← append_to_cur log_line len s; ok (t, false))
      else if is_free (cell s s.cur_buf)
      then (do
        t ← move_on cur_sec (set_full s.cur_buf s)
        u ← if t.last_log_fail_time == 0 then append_to_cur log_line len t else ok t
        ok (u, true))
      else ok (record s { last_log_fail_time = cur_sec }, false)

-- PersistLog up to the first Unlock, after the wait: whether there is something to write.
unfoldable pub claim : RingLog → Outcome (RingLog × Bool)
claim s =
    if is_empty (cell s s.prst_buf)
    then ok (s, false)
    else if is_free (cell s s.prst_buf)
    then if same_address s.cur_buf s.prst_buf
      then (do
        let t = set_full s.cur_buf s
        next ← pointed (cell t t.cur_buf).next
        ok (record t { cur_buf = next }, true))
      else fault failed_assert
    else ok (s, true)

-- PersistLog from the second Lock on.
unfoldable pub release : RingLog → Outcome RingLog
release s = do
  c ← clear_buffer (cell s s.prst_buf)
  let t = with_cell s s.prst_buf c
  next ← pointed (cell t t.prst_buf).next
  ok (record t { prst_buf = next; prst_shm_id = (cell t next).shm_id })
