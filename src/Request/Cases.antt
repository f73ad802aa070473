-- ===== src/Request/Cases.antt =====
-- Each case of the switch in ParseInternal keeps the local variables in order.
use wslyh.Base.{
  Bool-cases, Bytes, Option, arith, false, inl, inr, is_positive, leb, length, negsuc, none, ok,
  pos, read_bytes, refl, some, true, ℕ, ℤ, ◌+◌, ◌<◌, ◌>>=◌, ◌≡◌,
}
use wslyh.Request.{DecodeState, StringBuffer, find, string_of, to_string}
use wslyh.Request.Chars.{atoi_cases}
use wslyh.Request.Loop.{step_in}
use wslyh.Request.Step.{
  Scan, assign, content_length, on_before_protocol, on_before_uri, on_before_uri_param_key,
  on_before_uri_param_value, on_before_version, on_body, on_cr_lf, on_cr_lf_cr,
  on_header_after_colon, on_header_before_colon, on_header_key, on_header_value, on_in_uri,
  on_method, on_protocol, on_start, on_uri_param_key, on_uri_param_value, on_version,
  on_version_split, on_when_cr, set_body_length,
}
use wslyh.Request.Locals.{BeginsBy, LocalsInv, RangeBy, StepInv, begin_range, string_of_ok}

-- One byte, in a state whose locals are as they should be.
module _ (buf : Bytes) (size p ch : ℕ) (s : Scan) (inside : p < length buf)
    (moved : s.req.next_pos ≡ p + 1) where
  closes :
      (r : StringBuffer)
      → BeginsBy p r.begin
      → (t : Bytes) × (string_of buf r.begin (some p) ≡ ok t)
  closes r h = string_of_ok buf r.begin (some p) p (begin_range p r.begin h) (omega arith)

  step-method :
      BeginsBy p s.method.begin
      → s.req.decode_state ≡ DecodeState.method
      → StepInv buf DecodeState.method p s (on_method buf p ch s)
  unfolding on_method to_string
  step-method h st = let (t, text) = closes s.method h in ground arith

  step-in_uri :
      BeginsBy p s.url.begin
      → s.req.decode_state ≡ DecodeState.in_uri
      → StepInv buf DecodeState.in_uri p s (on_in_uri buf p ch s)
  unfolding on_in_uri to_string
  step-in_uri h st = let (t, text) = closes s.url h in ground arith

  step-uri_param_key :
      BeginsBy p s.param_key.begin
      → s.req.decode_state ≡ DecodeState.uri_param_key
      → StepInv buf DecodeState.uri_param_key p s (on_uri_param_key p ch s)
  unfolding on_uri_param_key
  step-uri_param_key h st = ground arith

  step-before_uri_param_value :
      RangeBy p s.param_key.begin s.param_key.end
      → s.req.decode_state ≡ DecodeState.before_uri_param_value
      → StepInv buf DecodeState.before_uri_param_value p s (on_before_uri_param_value p ch s)
  unfolding on_before_uri_param_value
  step-before_uri_param_value h st = ground arith

  step-uri_param_value :
      RangeBy p s.param_key.begin s.param_key.end
      → BeginsBy p s.param_value.begin
      → s.req.decode_state ≡ DecodeState.uri_param_value
      → StepInv buf DecodeState.uri_param_value p s (on_uri_param_value buf p ch s)
  unfolding on_uri_param_value to_string
  step-uri_param_value h k st =
      let (t, text) = closes s.param_value k in
      let (u, key) = string_of_ok buf s.param_key.begin s.param_key.end p h (omega arith) in
      ground arith

  step-protocol :
      BeginsBy p s.protocol.begin
      → s.req.decode_state ≡ DecodeState.protocol
      → StepInv buf DecodeState.protocol p s (on_protocol buf p ch s)
  unfolding on_protocol to_string
  step-protocol h st = let (t, text) = closes s.protocol h in ground arith

  step-version :
      BeginsBy p s.version.begin
      → s.req.decode_state ≡ DecodeState.version
      → StepInv buf DecodeState.version p s (on_version buf p ch s)
  unfolding on_version to_string
  step-version h st = let (t, text) = closes s.version h in ground arith

  step-version_split :
      BeginsBy p s.version.begin → StepInv buf DecodeState.version_split p s (on_version_split ch s)
  unfolding on_version_split
  step-version_split h = ground arith

  step-header_key :
      BeginsBy p s.header_key.begin
      → s.req.decode_state ≡ DecodeState.header_key
      → StepInv buf DecodeState.header_key p s (on_header_key p ch s)
  unfolding on_header_key
  step-header_key h st = ground arith

  step-header_before_colon :
      RangeBy p s.header_key.begin s.header_key.end
      → s.req.decode_state ≡ DecodeState.header_before_colon
      → StepInv buf DecodeState.header_before_colon p s (on_header_before_colon ch s)
  unfolding on_header_before_colon
  step-header_before_colon h st = ground arith

  step-header_after_colon :
      RangeBy p s.header_key.begin s.header_key.end
      → s.req.decode_state ≡ DecodeState.header_after_colon
      → StepInv buf DecodeState.header_after_colon p s (on_header_after_colon p ch s)
  unfolding on_header_after_colon
  step-header_after_colon h st = ground arith

  step-header_value :
      RangeBy p s.header_key.begin s.header_key.end
      → BeginsBy p s.header_value.begin
      → s.req.decode_state ≡ DecodeState.header_value
      → StepInv buf DecodeState.header_value p s (on_header_value buf p ch s)
  unfolding on_header_value to_string
  step-header_value h k st =
      let (t, text) = closes s.header_value k in
      let (u, key) = string_of_ok buf s.header_key.begin s.header_key.end p h (omega arith) in
      ground arith

  -- the states with no range open
  step-start :
      s.req.decode_state ≡ DecodeState.start → StepInv buf DecodeState.start p s (on_start p ch s)
  unfolding on_start
  step-start st = ground arith

  step-before_uri :
      s.req.decode_state ≡ DecodeState.before_uri
      → StepInv buf DecodeState.before_uri p s (on_before_uri p ch s)
  unfolding on_before_uri
  step-before_uri st = ground arith

  step-before_uri_param_key :
      StepInv buf DecodeState.before_uri_param_key p s (on_before_uri_param_key p ch s)
  unfolding on_before_uri_param_key
  step-before_uri_param_key = ground arith

  step-before_protocol :
      s.req.decode_state ≡ DecodeState.before_protocol
      → StepInv buf DecodeState.before_protocol p s (on_before_protocol p ch s)
  unfolding on_before_protocol
  step-before_protocol st = ground arith

  step-before_version : StepInv buf DecodeState.before_version p s (on_before_version p ch s)
  unfolding on_before_version
  step-before_version = ground arith

  step-when_cr : StepInv buf DecodeState.when_cr p s (on_when_cr ch s)
  unfolding on_when_cr
  step-when_cr = ground arith

  step-cr_lf : StepInv buf DecodeState.cr_lf p s (on_cr_lf p ch s)
  unfolding on_cr_lf
  step-cr_lf = ground arith

  set_body_length_lem :
      (value : Option Bytes)
      → find content_length s.req.headers ≡ value
      → StepInv buf DecodeState.cr_lf_cr p s (set_body_length p size value s)
  unfolding set_body_length
  set_body_length_lem none found = ground arith
  set_body_length_lem (some v) found = elim (atoi_cases v) [
    | inl (n, e) ↦ rw e (ground arith)
    | inr e ↦ rw e (refl, v, found, e)
  ]

  step-cr_lf_cr : StepInv buf DecodeState.cr_lf_cr p s (on_cr_lf_cr size p ch s)
  unfolding on_cr_lf_cr
  step-cr_lf_cr = ground (arith, set_body_length_lem (find content_length s.req.headers) refl)

  step-body : is_positive s.body_length ≡ true → StepInv buf DecodeState.body p s (on_body buf p s)
  unfolding on_body assign read_bytes
  step-body h = by_length s.body_length refl h
    where
      by_length :
          (n : ℤ)
          → s.body_length ≡ n
          → is_positive n ≡ true
          → StepInv buf DecodeState.body p s (
              assign buf p n >>= λ text. ok (record s {
                req = record s.req { body = text; decode_state = DecodeState.complete };
              }))
      by_length (pos n) e h = elim (Bool-cases (leb (p + n) (length buf))) [
        | inl fits ↦ rw fits (tt, moved)
        | inr short ↦ rw short (refl, n, e, ground arith)
      ]
      by_length (negsuc n) e h = let never : false ≡ true = h in cc

  pub step_in-StepInv :
      (st : DecodeState)
      → s.req.decode_state ≡ st
      → LocalsInv st p s
      → StepInv buf st p s (step_in st buf size p ch s)
  unfolding step_in
  step_in-StepInv DecodeState.start e h = step-start e
  step_in-StepInv DecodeState.method e h = step-method h e
  step_in-StepInv DecodeState.before_uri e h = step-before_uri e
  step_in-StepInv DecodeState.in_uri e h = step-in_uri h e
  step_in-StepInv DecodeState.before_uri_param_key e h = step-before_uri_param_key
  step_in-StepInv DecodeState.uri_param_key e h = step-uri_param_key h e
  step_in-StepInv DecodeState.before_uri_param_value e h = step-before_uri_param_value h e
  step_in-StepInv DecodeState.uri_param_value e h = step-uri_param_value h.0 h.1 e
  step_in-StepInv DecodeState.before_protocol e h = step-before_protocol e
  step_in-StepInv DecodeState.protocol e h = step-protocol h e
  step_in-StepInv DecodeState.before_version e h = step-before_version
  step_in-StepInv DecodeState.version e h = step-version h e
  step_in-StepInv DecodeState.version_split e h = step-version_split h
  step_in-StepInv DecodeState.header_key e h = step-header_key h e
  step_in-StepInv DecodeState.header_before_colon e h = step-header_before_colon h e
  step_in-StepInv DecodeState.header_after_colon e h = step-header_after_colon h e
  step_in-StepInv DecodeState.header_value e h = step-header_value h.0 h.1 e
  step_in-StepInv DecodeState.when_cr e h = step-when_cr
  step_in-StepInv DecodeState.cr_lf e h = step-cr_lf
  step_in-StepInv DecodeState.cr_lf_cr e h = step-cr_lf_cr
  step_in-StepInv DecodeState.body e h = step-body h
  step_in-StepInv _ e h = rw e (tt, moved)
