-- ===== src/Http/Waiting.antt =====
-- What ParseRead and HttpParse (http/http.cpp) make of a parsed request.
use wslyh.Base.{Option, arith, codes, equal, ok, refl, true, ℕ, ◌↔◌, ◌≡◌, ◌≢◌, ◌⊎◌}
use wslyh.Request.{DecodeState, Request}
use wslyh.Request.Loop.{parse_internal}
use wslyh.Http.{Http, World, epoll_in, mod_fd}
use wslyh.Http.Respond.{FileStat, answer, http_parse, is_body, is_complete, parse_read, read_status}

-- ParseRead reports a complete request exactly when a GET request's parse has reached the body at the
-- end of the data, or when the parse is complete before the end of the data.
pub read_status-complete_iff :
    (read_idx : ℕ) (r : Request)
    → (is_complete (read_status read_idx r) ≡ true) ↔ (
        ((r.next_pos ≡ read_idx)
          × (is_body r.decode_state ≡ true)
          × (equal r.method (codes "GET") ≡ true))
        ⊎ ((r.next_pos ≢ read_idx) × (is_complete r.decode_state ≡ true)))
unfolding read_status is_complete
read_status-complete_iff read_idx r = (ground arith, ground arith)

-- where the last byte of the data completes the request
pub http_parse-complete_at_end :
    (file : Option FileStat) (h : Http) (w : World) (r : Request)
    → parse_internal h.read_data h.read_idx h.http_parse ≡ ok r
    → r.decode_state ≡ DecodeState.complete
    → r.next_pos ≡ h.read_idx
    → http_parse file h w
      ≡ ok (record h { http_parse = r }, mod_fd h.sock_fd epoll_in h.trigger_mode w)
unfolding http_parse parse_read
http_parse-complete_at_end file h w r p c e =
    let status : read_status h.read_idx r ≡ DecodeState.opened =
      unfold read_status in ground arith in
    rw (p, status) (unfold answer in refl)
