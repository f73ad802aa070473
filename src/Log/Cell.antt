-- ===== src/Log/Cell.antt =====
-- log/log.h, CBufferCell: a buffer of log text in a segment of shared memory.
use wslyh.Base.{
  Bool, Bytes, Option, Outcome, ap, arith, false, if◌then◌else◌, length, length-replicate,
  length-take, ltb, negsuc, none, ok, read_bytes, replicate, splice, take, take-all,
  take-splice-behind, true, write_bytes, ℕ, ℤ, ◌%◌, ◌++◌, ◌+◌, ◌-◌, ◌<◌, ◌==◌, ◌>>=◌, ◌^◌, ◌≡◌, ◌≤◌,
}

pub data BufferStatus : Type 0 where
  free full : BufferStatus

-- An address that shmat gave: the segment, and the number of the call. Two addresses of one
-- segment lead to the same memory.
pub record Address : Type 0 where
  pub segment : ℕ
  pub attachment : ℕ

-- A CBufferCell and the bytes behind it in its segment, to which m_aData points; `none` is nullptr.
pub record BufferCell : Type 0 where
  pub status : BufferStatus
  pub pre_shm_id : ℤ
  pub next_shm_id : ℤ
  pub pre : Option Address
  pub next : Option Address
  pub shm_id : ℕ
  pub contents : Bytes
  pub tol_length : ℕ
  pub cur_length : ℕ

-- The constructor, in a segment that holds `contents`: these stay, since CreateCellBuffer turns
-- m_aData back to them.
abbrev pub new_cell : ℕ → ℕ → Bytes → BufferCell
new_cell shm_id len contents = record {
  status = BufferStatus.free;
  pre_shm_id = negsuc 0;
  next_shm_id = negsuc 0;
  pre = none;
  next = none;
  shm_id = shm_id;
  contents = contents;
  tol_length = len;
  cur_length = 0;
}

unfoldable pub is_free : BufferCell → Bool
is_free c = elim c.status [ BufferStatus.free ↦ true | BufferStatus.full ↦ false ]

-- uint32_t subtraction
unfoldable pub get_free_len : BufferCell → ℕ
get_free_len c = (c.tol_length + 2 ^ 32 - c.cur_length) % 2 ^ 32

unfoldable pub is_empty : BufferCell → Bool
is_empty c = c.cur_length == 0

-- `log_data` is the array that the text is read from.
unfoldable pub append : Bytes → ℕ → BufferCell → Outcome BufferCell
append log_data len c = if ltb (get_free_len c) len then ok c else do
  text ← read_bytes log_data 0 len
  contents' ← write_bytes c.contents c.cur_length text
  ok (record c { contents = contents'; cur_length = (c.cur_length + len) % 2 ^ 32 })

unfoldable pub clear_buffer : BufferCell → Outcome BufferCell
clear_buffer c = do
  contents' ← write_bytes c.contents 0 (replicate c.tol_length 0)
  ok (record c { cur_length = 0; contents = contents'; status = BufferStatus.free })

-- The bytes that reach the file, where fwrite writes `written` of them.
unfoldable pub persist : ℕ → BufferCell → Outcome Bytes
persist written c = do text ← read_bytes c.contents 0 c.cur_length; ok (take written text)

module _ (c : BufferCell) where
  pub is_free-free : c.status ≡ BufferStatus.free → is_free c ≡ true
  unfolding is_free
  is_free-free h = ap (λ s. elim s [ BufferStatus.free ↦ true | BufferStatus.full ↦ false ]) h

  pub is_free-full : c.status ≡ BufferStatus.full → is_free c ≡ false
  unfolding is_free
  is_free-full h = ap (λ s. elim s [ BufferStatus.free ↦ true | BufferStatus.full ↦ false ]) h

  pub is_empty-zero : c.cur_length ≡ 0 → is_empty c ≡ true
  unfolding is_empty
  is_empty-zero h = ground arith

  pub is_empty-pos : 0 < c.cur_length → is_empty c ≡ false
  unfolding is_empty
  is_empty-pos h = ground arith

-- the text in the buffer
abbrev pub text_of : BufferCell → Bytes
text_of c = take c.cur_length c.contents

module _ (c : BufferCell) (small : c.tol_length < 2 ^ 32) (within : c.cur_length ≤ c.tol_length)
    (room : c.tol_length ≤ length c.contents) where
  pub get_free_len_lem : get_free_len c ≡ c.tol_length - c.cur_length
  unfolding get_free_len
  get_free_len_lem = omega arith

  abbrev pub appended : Bytes → BufferCell
  appended text = record c {
    contents = splice c.contents c.cur_length text;
    cur_length = c.cur_length + length text;
  }

  -- a text that fits is appended
  pub append_lem :
      (log_data : Bytes) (len : ℕ)
      → len ≤ length log_data
      → c.cur_length + len ≤ c.tol_length
      → append log_data len c ≡ ok (appended (take len log_data))
  unfolding append read_bytes write_bytes
  append_lem log_data len l f =
      let e : length (take len log_data) ≡ len = omega (arith, length-take len log_data) in
      let g : get_free_len c ≡ c.tol_length - c.cur_length = get_free_len_lem in
      rw (ap (λ n. ltb n len) get_free_len_lem)
        (ground (arith, length-take len log_data, ap (λ n. (c.cur_length + n) % 2 ^ 32) e))

  pub text_of-appended :
      (text : Bytes)
      → c.cur_length + length text ≤ c.tol_length
      → text_of (appended text) ≡ text_of c ++ text
  text_of-appended text f = take-splice-behind c.contents c.cur_length text (omega arith)

  pub clear_buffer_lem :
      clear_buffer c
      ≡ ok (record c {
        cur_length = 0;
        contents = splice c.contents 0 (replicate c.tol_length 0);
        status = BufferStatus.free;
      })
  unfolding clear_buffer write_bytes
  clear_buffer_lem = ground (arith, length-replicate {A = ℕ} c.tol_length 0)

  pub persist_lem : persist c.cur_length c ≡ ok (text_of c)
  unfolding persist read_bytes
  persist_lem =
      let fits : c.cur_length ≤ length c.contents = omega arith in
      let e : take c.cur_length (take c.cur_length c.contents) ≡ take c.cur_length c.contents =
        take-all c.cur_length (take c.cur_length c.contents)
          (omega (arith, length-take c.cur_length c.contents)) in
      ground arith
