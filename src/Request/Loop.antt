-- ===== src/Request/Loop.antt =====
-- The loop of SHttpRequest::ParseInternal (http/http.cpp). `p0` is given by the bytes from it to
-- the end of the array; the array may be longer than the `size` bytes received.
use wslyh.Base.{
  Bool, Bytes, Outcome, [], drop, false, fault, if◌then◌else◌, ltb, ok, out_of_bounds, pos, true, ℕ,
  ◌+◌, ◌>>=◌, ◌∷◌,
}
use wslyh.Request.{DecodeState, Request, no_range}
use wslyh.Request.Step.{
  Scan, on_before_protocol, on_before_uri, on_before_uri_param_key, on_before_uri_param_value,
  on_before_version, on_body, on_cr_lf, on_cr_lf_cr, on_header_after_colon, on_header_before_colon,
  on_header_key, on_header_value, on_in_uri, on_method, on_protocol, on_start, on_uri_param_key,
  on_uri_param_value, on_version, on_version_split, on_when_cr,
}

-- the switch
unfoldable pub step_in : DecodeState → Bytes → ℕ → ℕ → ℕ → Scan → Outcome Scan
step_in DecodeState.start buf size p ch s = on_start p ch s
step_in DecodeState.method buf size p ch s = on_method buf p ch s
step_in DecodeState.before_uri buf size p ch s = on_before_uri p ch s
step_in DecodeState.in_uri buf size p ch s = on_in_uri buf p ch s
step_in DecodeState.before_uri_param_key buf size p ch s = on_before_uri_param_key p ch s
step_in DecodeState.uri_param_key buf size p ch s = on_uri_param_key p ch s
step_in DecodeState.before_uri_param_value buf size p ch s = on_before_uri_param_value p ch s
step_in DecodeState.uri_param_value buf size p ch s = on_uri_param_value buf p ch s
step_in DecodeState.before_protocol buf size p ch s = on_before_protocol p ch s
step_in DecodeState.protocol buf size p ch s = on_protocol buf p ch s
step_in DecodeState.before_version buf size p ch s = on_before_version p ch s
step_in DecodeState.version buf size p ch s = on_version buf p ch s
step_in DecodeState.version_split buf size p ch s = on_version_split ch s
step_in DecodeState.header_key buf size p ch s = on_header_key p ch s
step_in DecodeState.header_before_colon buf size p ch s = on_header_before_colon ch s
step_in DecodeState.header_after_colon buf size p ch s = on_header_after_colon p ch s
step_in DecodeState.header_value buf size p ch s = on_header_value buf p ch s
step_in DecodeState.when_cr buf size p ch s = on_when_cr ch s
step_in DecodeState.cr_lf buf size p ch s = on_cr_lf p ch s
step_in DecodeState.cr_lf_cr buf size p ch s = on_cr_lf_cr size p ch s
step_in DecodeState.body buf size p ch s = on_body buf p s
step_in _ buf size p ch s = ok s

-- the states that end the loop
unfoldable pub is_final : DecodeState → Bool
is_final DecodeState.invalid = true
is_final DecodeState.invalid_method = true
is_final DecodeState.invalid_uri = true
is_final DecodeState.invalid_version = true
is_final DecodeState.invalid_header = true
is_final DecodeState.complete = true
is_final _ = false

-- the condition of the loop
unfoldable pub goes_on : ℕ → Request → Bool
unfolding is_final
goes_on size r = if is_final r.decode_state then false else ltb r.next_pos size

-- the body of the loop, on the byte that `p0` points to
unfoldable pub step : Bytes → ℕ → ℕ → Scan → Outcome Scan
step buf size ch s =
    step_in s.req.decode_state buf size s.req.next_pos ch
      (record s { req = record s.req { next_pos = s.req.next_pos + 1 } })

unfoldable pub scan_loop : Bytes → ℕ → Bytes → Scan → Outcome Scan
scan_loop buf size [] s = if goes_on size s.req then fault out_of_bounds else ok s
scan_loop buf size (ch ∷ rest) s =
    let onward = step buf size ch s >>= λ s'. scan_loop buf size rest s' in
    if goes_on size s.req then onward else ok s

-- the local variables as a call of ParseInternal sets them up
abbrev pub fresh_locals : Request → Scan
fresh_locals r = record {
  req = r;
  method = no_range;
  url = no_range;
  param_key = no_range;
  param_value = no_range;
  protocol = no_range;
  version = no_range;
  header_key = no_range;
  header_value = no_range;
  body_length = pos 0;
}

unfoldable pub parse_internal : Bytes → ℕ → Request → Outcome Request
unfolding scan_loop
parse_internal buf size r = do
  s ← scan_loop buf size (drop r.next_pos buf) (fresh_locals r)
  ok s.req
