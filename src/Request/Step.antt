-- ===== src/Request/Step.antt =====
-- The cases of the switch in SHttpRequest::ParseInternal (http/http.cpp), one function for each
-- state. `p` is the offset of the byte `ch`; m_iNextPos is past it already.
use wslyh.Base.{
  Bytes, Option, Outcome, bad_length, codes, fault, if◌then◌else◌, is_positive, ltb, negsuc, none,
  ok, pos, read_bytes, some, sub_ℕ, ℕ, ℤ, ◌==◌, ◌>>=◌, ◌||◌,
}
use wslyh.Request.{DecodeState, Request, StringBuffer, find, insert, to_string}
use wslyh.Request.Chars.{atoi, cr, isblank, isdigit, isupper, lf}

-- The object and the local variables of one call of ParseInternal.
pub record Scan : Type 0 where
  pub req : Request
  pub method : StringBuffer
  pub url : StringBuffer
  pub param_key : StringBuffer
  pub param_value : StringBuffer
  pub protocol : StringBuffer
  pub version : StringBuffer
  pub header_key : StringBuffer
  pub header_value : StringBuffer
  pub body_length : ℤ

abbrev pub goto : DecodeState → Scan → Scan
goto st s = record s { req = record s.req { decode_state = st } }

abbrev pub begin_at : ℕ → StringBuffer → StringBuffer
begin_at p r = record r { begin = some p }

abbrev pub end_at : ℕ → StringBuffer → StringBuffer
end_at p r = record r { end = some p }

unfoldable pub on_start : ℕ → ℕ → Scan → Outcome Scan
unfolding isblank isupper
on_start p ch s =
    if ch == cr || (ch == lf || isblank ch)
    then ok s
    else if isupper ch
    then ok (goto DecodeState.method (record s { method = begin_at p s.method }))
    else ok (goto DecodeState.invalid s)

unfoldable pub on_method : Bytes → ℕ → ℕ → Scan → Outcome Scan
unfolding isblank isupper
on_method buf p ch s =
    if isupper ch
    then ok s
    else if isblank ch
    then (do
      let range = end_at p s.method
      text ← to_string buf range
      ok (record s {
        method = range;
        req = record s.req { method = text; decode_state = DecodeState.before_uri };
      }))
    else ok (goto DecodeState.invalid_method s)

unfoldable pub on_before_uri : ℕ → ℕ → Scan → Outcome Scan
unfolding isblank
on_before_uri p ch s =
    if ch == b'/'
    then ok (goto DecodeState.in_uri (record s { url = begin_at p s.url }))
    else if isblank ch
    then ok s
    else ok (goto DecodeState.invalid s)

-- the path ends at `p`, and `next` follows
unfoldable pub end_uri : Bytes → ℕ → DecodeState → Scan → Outcome Scan
end_uri buf p next s = do
  let range = end_at p s.url
  text ← to_string buf range
  ok (record s { url = range; req = record s.req { url = text; decode_state = next } })

unfoldable pub on_in_uri : Bytes → ℕ → ℕ → Scan → Outcome Scan
unfolding isblank end_uri
on_in_uri buf p ch s =
    if ch == b'?'
    then end_uri buf p DecodeState.before_uri_param_key s
    else if isblank ch
    then end_uri buf p DecodeState.before_protocol s
    else ok s

unfoldable pub on_before_uri_param_key : ℕ → ℕ → Scan → Outcome Scan
unfolding isblank
on_before_uri_param_key p ch s =
    if isblank ch || (ch == lf || ch == cr)
    then ok (goto DecodeState.invalid_uri s)
    else ok (goto DecodeState.uri_param_key (record s { param_key = begin_at p s.param_key }))

unfoldable pub on_uri_param_key : ℕ → ℕ → Scan → Outcome Scan
unfolding isblank
on_uri_param_key p ch s =
    if ch == b'='
    then ok
        (goto DecodeState.before_uri_param_value (record s { param_key = end_at p s.param_key }))
    else if isblank ch
    then ok (goto DecodeState.invalid_uri s)
    else ok s

unfoldable pub on_before_uri_param_value : ℕ → ℕ → Scan → Outcome Scan
unfolding isblank
on_before_uri_param_value p ch s =
    if isblank ch || (ch == lf || ch == cr)
    then ok (goto DecodeState.invalid_uri s)
    else ok (goto DecodeState.uri_param_value (record s { param_value = begin_at p s.param_value }))

-- the parameter's value ends at `p`: the pair is inserted, and `next` follows
unfoldable pub end_param : Bytes → ℕ → DecodeState → Scan → Outcome Scan
end_param buf p next s = do
  let range = end_at p s.param_value
  key ← to_string buf s.param_key
  value ← to_string buf range
  ok (record s {
    param_value = range;
    req = record s.req {
      request_params = insert key value s.req.request_params;
      decode_state = next;
    };
  })

unfoldable pub on_uri_param_value : Bytes → ℕ → ℕ → Scan → Outcome Scan
unfolding isblank end_param
on_uri_param_value buf p ch s =
    if ch == b'&'
    then end_param buf p DecodeState.before_uri_param_key s
    else if isblank ch
    then end_param buf p DecodeState.before_protocol s
    else ok s

unfoldable pub on_before_protocol : ℕ → ℕ → Scan → Outcome Scan
unfolding isblank
on_before_protocol p ch s =
    if isblank ch
    then ok s
    else ok (goto DecodeState.protocol (record s { protocol = begin_at p s.protocol }))

unfoldable pub on_protocol : Bytes → ℕ → ℕ → Scan → Outcome Scan
on_protocol buf p ch s =
    if ch == b'/'
    then (do
      let range = end_at p s.protocol
      text ← to_string buf range
      ok (record s {
        protocol = range;
        req = record s.req { protocol = text; decode_state = DecodeState.before_version };
      }))
    else ok s

unfoldable pub on_before_version : ℕ → ℕ → Scan → Outcome Scan
unfolding isdigit
on_before_version p ch s =
    if isdigit ch
    then ok (goto DecodeState.version (record s { version = begin_at p s.version }))
    else ok (goto DecodeState.invalid_version s)

unfoldable pub on_version : Bytes → ℕ → ℕ → Scan → Outcome Scan
unfolding isdigit
on_version buf p ch s =
    if ch == cr
    then (do
      let range = end_at p s.version
      text ← to_string buf range
      ok (record s {
        version = range;
        req = record s.req { version = text; decode_state = DecodeState.when_cr };
      }))
    else if ch == b'.'
    then ok (goto DecodeState.version_split s)
    else if isdigit ch
    then ok s
    else ok (goto DecodeState.invalid_version s)

unfoldable pub on_version_split : ℕ → Scan → Outcome Scan
unfolding isdigit
on_version_split ch s =
    if isdigit ch then ok (goto DecodeState.version s) else ok (goto DecodeState.invalid_version s)

unfoldable pub on_header_key : ℕ → ℕ → Scan → Outcome Scan
unfolding isblank
on_header_key p ch s =
    if isblank ch
    then ok (goto DecodeState.header_before_colon (record s { header_key = end_at p s.header_key }))
    else if ch == b':'
    then ok (goto DecodeState.header_after_colon (record s { header_key = end_at p s.header_key }))
    else ok s

unfoldable pub on_header_before_colon : ℕ → Scan → Outcome Scan
unfolding isblank
on_header_before_colon ch s =
    if isblank ch
    then ok s
    else if ch == b':'
    then ok (goto DecodeState.header_after_colon s)
    else ok (goto DecodeState.invalid_header s)

unfoldable pub on_header_after_colon : ℕ → ℕ → Scan → Outcome Scan
unfolding isblank
on_header_after_colon p ch s =
    if isblank ch
    then ok s
    else ok (goto DecodeState.header_value (record s { header_value = begin_at p s.header_value }))

unfoldable pub on_header_value : Bytes → ℕ → ℕ → Scan → Outcome Scan
on_header_value buf p ch s =
    if ch == cr
    then (do
      let range = end_at p s.header_value
      key ← to_string buf s.header_key
      value ← to_string buf range
      ok (record s {
        header_value = range;
        req = record s.req {
          headers = insert key value s.req.headers;
          decode_state = DecodeState.when_cr;
        };
      }))
    else ok s

unfoldable pub on_when_cr : ℕ → Scan → Outcome Scan
on_when_cr ch s =
    if ch == lf then ok (goto DecodeState.cr_lf s) else ok (goto DecodeState.invalid s)

unfoldable pub on_cr_lf : ℕ → ℕ → Scan → Outcome Scan
unfolding isblank
on_cr_lf p ch s =
    if ch == cr
    then ok (goto DecodeState.cr_lf_cr s)
    else if isblank ch
    then ok (goto DecodeState.invalid s)
    else ok (goto DecodeState.header_key (record s { header_key = begin_at p s.header_key }))

abbrev pub content_length : Bytes
content_length = codes "Content-Length"

-- the body's length, by the Content-Length header's value if there is one
unfoldable pub set_body_length : ℕ → ℕ → Option Bytes → Scan → Outcome Scan
set_body_length p size (some value) s = do
  n ← atoi value
  let s' = record s { body_length = n }
  ok (if is_positive n then goto DecodeState.body s' else goto DecodeState.complete s')
set_body_length p size none s =
    if ltb p size
    then ok (goto DecodeState.body (record s { body_length = sub_ℕ size p }))
    else ok (goto DecodeState.complete s)

unfoldable pub on_cr_lf_cr : ℕ → ℕ → ℕ → Scan → Outcome Scan
unfolding set_body_length
on_cr_lf_cr size p ch s =
    if ch == lf
    then set_body_length p size (find content_length s.req.headers) s
    else ok (goto DecodeState.invalid_header s)

-- std::string::assign(p, n), where a negative count is too large
unfoldable pub assign : Bytes → ℕ → ℤ → Outcome Bytes
assign buf p (pos n) = read_bytes buf p n
assign buf p (negsuc n) = fault bad_length

unfoldable pub on_body : Bytes → ℕ → Scan → Outcome Scan
on_body buf p s = do
  text ← assign buf p s.body_length
  ok (record s { req = record s.req { body = text; decode_state = DecodeState.complete } })
