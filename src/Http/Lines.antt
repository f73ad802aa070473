-- ===== src/Http/Lines.antt =====
-- CHttp::AddLine and the functions that add a line of the response with it (http/http.cpp).
-- The text that vsnprintf makes of the format and its arguments is given to add_line.
use wslyh.Base.{
  Bool, Bytes, [], codes, decimal, false, if◌then◌else◌, leb, length, pos, print_at, true, ℕ, ℤ,
  ◌++◌, ◌+◌, ◌-◌, ◌∷◌,
}
use wslyh.Http.{Http, max_buff_size}

unfoldable pub add_line : Bytes → Http → Http × Bool
add_line text h =
    let room = max_buff_size - 1 - h.write_idx in
    let printed = record h { write_data = print_at h.write_data h.write_idx room text } in
    if leb max_buff_size h.write_idx
    then (h, false)
    else if leb room (length text)
    then (printed, false)
    else (record printed { write_idx = h.write_idx + length text }, true)

abbrev pub crlf : Bytes
crlf = b'\r' ∷ b'\n' ∷ []

unfoldable pub status_line : ℕ → Bytes → Bytes
status_line status title = codes "HTTP/1.1" ++ (b' ' ∷ decimal (pos status) ++ b' ' ∷ title) ++ crlf

unfoldable pub add_status_line : ℕ → Bytes → Http → Http × Bool
add_status_line status title = add_line (status_line status title)

unfoldable pub add_content_length : ℤ → Http → Http × Bool
add_content_length n = add_line (codes "Content-Length:" ++ decimal n ++ crlf)

unfoldable pub add_content_type : Http → Http × Bool
add_content_type = add_line (codes "Content-Type:text/html" ++ crlf)

unfoldable pub add_linger : Http → Http × Bool
add_linger h =
    add_line
      (codes "Connection:" ++ (if h.linger then codes "keep-alive" else codes "close") ++ crlf) h

unfoldable pub add_blank_line : Http → Http × Bool
add_blank_line = add_line crlf

unfoldable pub add_content : Bytes → Http → Http × Bool
add_content = add_line

-- `a && b`, where `b` runs only after `a` gave true
infixl 5 ◌then_also◌
abbrev pub ◌then_also◌ : Http × Bool → (Http → Http × Bool) → Http × Bool
r then_also f = if r.1 then f r.0 else r

unfoldable pub add_headers : ℤ → Http → Http × Bool
add_headers n h =
    add_content_length n h then_also add_linger then_also add_content_type then_also add_blank_line
