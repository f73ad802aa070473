-- ===== src/Http/Transfer.antt =====
-- CHttp::Read and CHttp::Write (http/http.cpp). What the calls of recv and writev return is given
-- by a list of events, one for each call.
use wslyh.Base.{
  Bool, Bytes, List, Option, Outcome, [], false, fault, if◌then◌else◌, is_positive, is_zero, leb,
  length, minus_ℕ, negsuc, none, null_pointer, ok, out_of_bounds, pos, read_bytes, some, splice,
  sub_ℕ, suc, take, true, zero, ℕ, ℤ, ◌++◌, ◌+◌, ◌-◌, ◌==◌, ◌>>=◌, ◌^◌, ◌∷◌,
}
use wslyh.Http.{Http, IoVec, World, epoll_in, epoll_out, max_buff_size, mod_fd, reset, unmmap}

-- What recv finds: bytes that wait, of which it takes as many as there is room for; the end of the
-- stream; EAGAIN or EWOULDBLOCK; another error.
pub data Received : Type 0 where
  waiting : Bytes → Received
  end_of_stream again broken : Received

-- What writev does: it takes some bytes; EAGAIN; another error.
pub data Written : Type 0 where
  taken : ℕ → Written
  would_block failed : Written

-- A call that has returned, or one that still waits in its loop for the next event.
pub data Progress : Type 0 where
  returned : Bool → Progress
  looping : Progress

-- one recv: the connection with the bytes stored, and how many they are
unfoldable pub recv : Bytes → Http → Http × ℕ
recv bytes h =
    let taken = take (max_buff_size - h.read_idx) bytes in
    (
      record h {
        read_data = splice h.read_data h.read_idx taken;
        read_idx = h.read_idx + length taken;
      },
      length taken,
    )

unfoldable pub read_edge : List Received → Http → Http × Progress
unfolding recv
read_edge [] h = (h, looping)
read_edge (waiting bytes ∷ rest) h =
    let (h', n) = recv bytes h in
    let onward = read_edge rest h' in if n == 0 then (h, returned false) else onward
read_edge (end_of_stream ∷ rest) h = (h, returned false)
read_edge (again ∷ rest) h = (h, returned true)
read_edge (broken ∷ rest) h = (h, returned false)

unfoldable pub read_level : List Received → Http → Http × Progress
unfolding recv
read_level [] h = (h, looping)
read_level (waiting bytes ∷ rest) h =
    let (h', n) = recv bytes h in if n == 0 then (h, returned false) else (h', returned true)
read_level (_ ∷ rest) h = (h, returned false)

unfoldable pub read : List Received → Http → Http × Progress
read events h =
    if leb max_buff_size h.read_idx
    then (h, returned false)
    else if h.trigger_mode
    then read_edge events h
    else read_level events h

-- `n` bytes from an offset of an array; an empty range is read nowhere.
unfoldable pub gather_at : Bytes → ℤ → ℕ → Outcome Bytes
gather_at array base zero = ok []
gather_at array (pos b) (suc n) = read_bytes array b (suc n)
gather_at array (negsuc b) (suc n) = fault out_of_bounds

unfoldable pub gather_file : Option Bytes → IoVec → Outcome Bytes
gather_file (some file) iv = gather_at file iv.iov_base iv.iov_len
gather_file none iv = if iv.iov_len == 0 then ok [] else fault null_pointer

-- The bytes that m_sIv describes.
unfoldable pub gather : Http → Outcome Bytes
unfolding gather_at gather_file
gather h = do
  head ← gather_at h.write_data h.iv_head.iov_base h.iv_head.iov_len
  file ← gather_file h.file_addr h.iv_file
  ok (head ++ file)

-- Where a call of Write stands: `sent` is what writev has taken so far.
pub record Writing : Type 0 where
  pub http : Http
  pub world : World
  pub sent : Bytes
  pub progress : Progress

abbrev pub size_of : ℤ → ℕ
size_of (pos n) = n
size_of (negsuc n) = 2 ^ 64 - 1 - n

-- the update of m_sIv after a part of the data was taken
unfoldable pub advance : Http → Http
advance h =
    if leb h.iv_head.iov_len h.data_send_len
    then record h {
      iv_head = record h.iv_head { iov_len = 0 };
      iv_file = record {
        iov_base = sub_ℕ h.data_send_len h.write_idx;
        iov_len = size_of h.data_len;
      };
    }
    else record h {
      iv_head = record {
        iov_base = pos h.data_send_len;
        iov_len = h.iv_head.iov_len - h.data_send_len;
      };
    }

-- the branch for all data sent
unfoldable pub finish_write : Http → World → Bytes → Writing
finish_write h w sent = record {
  http = if h.linger then reset (unmmap h) else unmmap h;
  world = mod_fd h.sock_fd epoll_in h.trigger_mode w;
  sent = sent;
  progress = returned h.linger;
}

-- m_iDataSendLen += n; m_iDataLen -= n;
abbrev pub count_sent : ℕ → Http → Http
count_sent n h = record h { data_send_len = h.data_send_len + n; data_len = minus_ℕ h.data_len n }

unfoldable pub write_loop : List Written → Http → World → Bytes → Outcome Writing
write_loop [] h w sent = ok (record { http = h; world = w; sent = sent; progress = looping })
write_loop (would_block ∷ rest) h w sent = ok (record {
  http = h;
  world = mod_fd h.sock_fd epoll_out h.trigger_mode w;
  sent = sent;
  progress = returned true;
})
write_loop (failed ∷ rest) h w sent =
    ok (record { http = unmmap h; world = w; sent = sent; progress = returned false })
write_loop (taken n ∷ rest) h w sent = do
  bytes ← gather h
  let sent' = sent ++ take n bytes
  let h' = count_sent n h
  let onward = write_loop rest (advance h') w sent'
  if is_positive h'.data_len then onward else ok (finish_write h' w sent')

unfoldable pub write : List Written → Http → World → Outcome Writing
write events h w =
    if is_zero h.data_len
    then ok (record {
      http = reset h;
      world = mod_fd h.sock_fd epoll_in h.trigger_mode w;
      sent = [];
      progress = returned true;
    })
    else write_loop events h w []
