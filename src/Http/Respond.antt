-- ===== src/Http/Respond.antt =====
-- CHttp::ParseRead, ParseWrite and HttpParse (http/http.cpp): what a worker does with a request.
use wslyh.Base.{
  Bool, Bytes, Option, Outcome, codes, equal, false, if◌then◌else◌, length, none, not, ok, pos,
  some, to_int, true, ℕ, ◌&&◌, ◌+◌, ◌==◌, ◌>>=◌,
}
use wslyh.Request.{DecodeState, Request}
use wslyh.Request.Loop.{parse_internal}
use wslyh.Http.{Http, World, close_http, epoll_in, epoll_out, mod_fd}
use wslyh.Http.Lines.{add_content, add_headers, add_status_line}

-- What stat finds of m_aFile, and the bytes that mmap then maps.
pub record FileStat : Type 0 where
  pub others_read : Bool
  pub is_dir : Bool
  pub contents : Bytes

-- the states that stand for a malformed request
unfoldable pub is_invalid : DecodeState → Bool
is_invalid DecodeState.invalid = true
is_invalid DecodeState.invalid_method = true
is_invalid DecodeState.invalid_uri = true
is_invalid DecodeState.invalid_version = true
is_invalid DecodeState.invalid_header = true
is_invalid _ = false

unfoldable pub is_body : DecodeState → Bool
is_body DecodeState.body = true
is_body _ = false

unfoldable pub is_complete : DecodeState → Bool
is_complete DecodeState.complete = true
is_complete _ = false

unfoldable pub is_opened : DecodeState → Bool
is_opened DecodeState.opened = true
is_opened _ = false

-- the status that ParseRead makes of a request parsed up to `next_pos`
unfoldable pub read_status : ℕ → Request → DecodeState
unfolding is_invalid is_body
read_status read_idx r =
    if r.next_pos == read_idx
    then (if is_body r.decode_state && equal r.method (codes "GET")
        then DecodeState.complete
        else if not (is_invalid r.decode_state)
        then DecodeState.opened
        else r.decode_state)
    else r.decode_state

unfoldable pub parse_read : Http → Outcome (Http × DecodeState)
parse_read h = do
  r ← parse_internal h.read_data h.read_idx h.http_parse
  ok (record h { http_parse = r }, read_status h.read_idx r)

abbrev pub ok_200_title : Bytes
ok_200_title = codes "OK"

abbrev pub error_400_title : Bytes
error_400_title = codes "Bad Request"

abbrev pub error_400_form : Bytes
error_400_form = codes "Your request has bad syntax or is inherently impossible to staisfy.\n"

abbrev pub error_403_title : Bytes
error_403_title = codes "Forbidden"

abbrev pub error_403_form : Bytes
error_403_form = codes "You do not have permission to get file form this server.\n"

abbrev pub error_404_title : Bytes
error_404_title = codes "Not Found"

abbrev pub error_404_form : Bytes
error_404_form = codes "The requested file was not found on this server.\n"

abbrev pub error_500_title : Bytes
error_500_title = codes "Internal Error"

abbrev pub error_500_form : Bytes
error_500_form = codes "There was an unusual problem serving the request file.\n"

-- the three calls of an error branch
unfoldable pub error_page : ℕ → Bytes → Bytes → Http → Http × Bool
error_page status title form h =
    let (h1, _) = add_status_line status title h in
    let (h2, _) = add_headers (to_int (length form)) h1 in add_content form h2

-- the branch for a file that can be sent
unfoldable pub send_file : FileStat → Http → Http × Bool
send_file file h =
    let size = length file.contents in
    let (h1, _) = add_status_line 200 ok_200_title (record h { file_addr = some file.contents }) in
    let (h2, _) = add_headers (to_int size) h1 in
    (
      record h2 {
        iv_head = record { iov_base = pos 0; iov_len = h2.write_idx };
        iv_file = record { iov_base = pos 0; iov_len = size };
        data_len = to_int (h2.write_idx + size);
      },
      true,
    )

-- `file` is none where stat fails
unfoldable pub serve : Option FileStat → Http → Http × Bool
serve none h = error_page 404 error_404_title error_404_form h
serve (some file) h =
    if not file.others_read
    then error_page 403 error_403_title error_403_form h
    else if file.is_dir
    then error_page 404 error_404_title error_404_form h
    else send_file file h

unfoldable pub parse_write : Option FileStat → DecodeState → Http → Http × Bool
unfolding is_invalid is_complete
parse_write file status h =
    if is_invalid status
    then error_page 400 error_400_title error_400_form h
    else if is_complete status
    then serve file h
    else error_page 500 error_500_title error_500_form h

-- what HttpParse does once the status is known
unfoldable pub answer : Option FileStat → DecodeState → Http → World → Http × World
unfolding is_opened
answer file status h w =
    if is_opened status
    then (h, mod_fd h.sock_fd epoll_in h.trigger_mode w)
    else (let (h', done) = parse_write file status h in
        if not done then close_http h' w else (h', mod_fd h'.sock_fd epoll_out h'.trigger_mode w))

unfoldable pub http_parse : Option FileStat → Http → World → Outcome (Http × World)
http_parse file h w = do read ← parse_read h; ok (answer file read.1 read.0 w)
