-- ===== src/Http.antt =====
-- http/http.h and http/http.cpp: a connection, CHttp, with the calls that open and close it and the
-- functions that register its socket with epoll.
-- What the kernel sees of a connection is kept as a list of effects, the oldest first.
pub mod Lines
pub mod Respond
pub mod Transfer
pub mod Composed
pub mod Page
pub mod Serve
pub mod Deliver
pub mod Partial
pub mod Waiting
pub mod Unanswered
pub mod Stored
pub mod Ready
pub mod Session
mod Tests
use wslyh.Base.{
  Bool, Bytes, List, Option, [], add_ℕ, false, minus_ℕ, none, pos, replicate, some, true, ℕ, ℤ,
  ◌++◌, ◌∷◌,
}
use wslyh.Request.{Request, init}

-- MAX_READ_DATA_BUFF_SIZE and MAX_WRITE_DATA_BUFF_SIZE
abbrev pub max_buff_size : ℕ
max_buff_size = 5120

pub data Event : Type 0 where
  epoll_in epoll_out : Event

-- epoll_ctl and close, as AddFd, ModFd and RemoveFd call them. A descriptor is registered for an
-- event and EPOLLRDHUP; the flags are EPOLLET and EPOLLONESHOT.
pub data Effect : Type 0 where
  ctl_add : ℕ → Bool → Bool → Effect
  ctl_mod : ℕ → Event → Bool → Effect
  ctl_del : ℕ → Effect
  close : ℕ → Effect

-- the static count of connections, and the effects so far
pub record World : Type 0 where
  pub http_cnt : ℤ
  pub effects : List Effect

-- One entry of m_sIv: an offset from the start of its array, and a length.
pub record IoVec : Type 0 where
  pub iov_base : ℤ
  pub iov_len : ℕ

pub record Http : Type 0 where
  -- `none` is -1
  pub sock_fd : Option ℕ
  pub read_data : Bytes
  pub write_data : Bytes
  -- the mapped file, `none` where m_pFileAddr is nullptr
  pub file_addr : Option Bytes
  pub data_len : ℤ
  pub data_send_len : ℕ
  -- m_iTriggerMode is 1, edge triggered
  pub trigger_mode : Bool
  pub read_idx : ℕ
  pub write_idx : ℕ
  pub http_parse : Request
  -- m_sIv[0], over the write buffer, and m_sIv[1], over the mapped file
  pub iv_head : IoVec
  pub iv_file : IoVec
  pub linger : Bool

abbrev pub emit : Effect → World → World
emit e w = record w { effects = w.effects ++ e ∷ [] }

-- AddFd; fcntl only makes the descriptor non-blocking
unfoldable pub add_fd : ℕ → Bool → Bool → World → World
add_fd fd one_shot trigger_mode = emit (ctl_add fd trigger_mode one_shot)

unfoldable pub remove_fd : ℕ → World → World
remove_fd fd w = emit (close fd) (emit (ctl_del fd) w)

-- ModFd; on the descriptor -1 epoll_ctl fails and changes nothing
unfoldable pub mod_fd : Option ℕ → Event → Bool → World → World
mod_fd none ev trigger_mode w = w
mod_fd (some fd) ev trigger_mode w = emit (ctl_mod fd ev trigger_mode) w

abbrev pub cleared : Bytes
cleared = replicate max_buff_size 0

-- CHttp::Init; the members it does not mention keep their values
unfoldable pub init_http : ℕ → Bool → Http → World → Http × World
init_http fd trigger_mode h w = (
  record h {
    sock_fd = some fd;
    trigger_mode = trigger_mode;
    read_idx = 0;
    write_idx = 0;
    data_len = pos 0;
    data_send_len = 0;
    read_data = cleared;
    write_data = cleared;
    linger = false;
    http_parse = init h.http_parse;
  },
  record (add_fd fd true trigger_mode w) { http_cnt = add_ℕ w.http_cnt 1 },
)

unfoldable pub close_fd : Option ℕ → Http → World → Http × World
close_fd none h w = (h, w)
close_fd (some fd) h w =
    (record h { sock_fd = none }, record (remove_fd fd w) { http_cnt = minus_ℕ w.http_cnt 1 })

unfoldable pub close_http : Http → World → Http × World
unfolding close_fd
close_http h = close_fd h.sock_fd h

pub unmmap : Http → Http
unmmap h = record h { file_addr = none }

-- The block of Write that makes the connection ready for the next request.
pub reset : Http → Http
reset h = record h {
  read_idx = 0;
  write_idx = 0;
  data_len = pos 0;
  data_send_len = 0;
  read_data = cleared;
  write_data = cleared;
  http_parse = init h.http_parse;
}
