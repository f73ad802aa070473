-- ===== src/Request/Tests.antt =====
-- Runs of the parser on whole requests.
use wslyh.Request.Body.{completed, parse_internal-print_body, parse_internal-print_unsized}
use wslyh.Base.{
  Bytes, Outcome, [], arith, codes, equal, false, fault, if◌then◌else◌, leb, length, null_range, ok,
  out_of_bounds, read_bytes, refl, ℕ, ◌+◌, ◌∷◌, ◌≡◌,
}
use wslyh.Request.{DecodeState, Request, find, init, insert, string_of, to_string}
use wslyh.Request.Loop.{goes_on, is_final, parse_internal, scan_loop, step, step_in}
use wslyh.Request.Step.{
  assign, content_length, on_before_protocol, on_before_uri, on_before_uri_param_key,
  on_before_uri_param_value, on_before_version, on_body, on_cr_lf, on_cr_lf_cr,
  on_header_after_colon, on_header_before_colon, on_header_key, on_header_value, on_in_uri,
  on_method, on_protocol, on_start, on_uri_param_key, on_uri_param_value, on_version,
  on_version_split, on_when_cr, set_body_length,
}
use wslyh.Request.Chars.{atoi, isblank, isdigit, isupper}
use wslyh.Request.Resume.{parse_internal-resumed}
use wslyh.Request.Message.{IsMessage, Message, as_request, parse_internal-print, print}
use wslyh.Request.Ending.{ended}

abbrev blank_request : Request
blank_request = record {
  method = [];
  url = [];
  request_params = [];
  protocol = [];
  version = [];
  headers = [];
  body = [];
  next_pos = 0;
  is_open = false;
  decode_state = DecodeState.start;
}

abbrev get_text : Bytes
get_text = codes "GET /a?k=v&x=yz HTTP/1.1\r\nHost: h\r\nA : b\r\n\r\n"

-- parse_internal with all that it calls, for evaluation
run_parser : Bytes → ℕ → Request → Outcome Request
unfolding parse_internal scan_loop step step_in goes_on is_final string_of read_bytes to_string find
    insert on_start on_method on_before_uri on_in_uri on_before_uri_param_key on_uri_param_key
    on_before_uri_param_value on_uri_param_value on_before_protocol on_protocol on_before_version
    on_version on_version_split on_header_key on_header_before_colon on_header_after_colon
    on_header_value on_when_cr on_cr_lf on_cr_lf_cr on_body set_body_length assign atoi equal
run_parser = parse_internal

get_runs :
    run_parser get_text (length get_text) blank_request
    ≡ ok (record {
      method = codes "GET";
      url = codes "/a";
      request_params = (codes "k", codes "v") ∷ (codes "x", codes "yz") ∷ [];
      protocol = codes "HTTP";
      version = codes "1.1";
      headers = (codes "Host", codes "h") ∷ (codes "A", codes "b") ∷ [];
      body = [];
      next_pos = length get_text;
      is_open = false;
      decode_state = DecodeState.body;
    })
unfolding run_parser
get_runs = refl

parse_internal-resumed_example :
    parse_internal
      (codes "GET / HTTP")
      10
      (record blank_request { next_pos = 2; decode_state = DecodeState.method })
    ≡ fault null_range
unfolding isupper isblank
parse_internal-resumed_example =
    parse_internal-resumed DecodeState.method (codes "GET / HTTP") 10 (codes "T") b' '
      (codes "/ HTTP") (record blank_request { next_pos = 2; decode_state = DecodeState.method })
      refl refl refl refl (omega arith)

abbrev hello : Message
hello = record {
  method = record { first = b'G'; more = codes "ET" };
  path = codes "a.html";
  protocol = record { first = b'H'; more = codes "TTP" };
  major = record { first = b'1'; more = [] };
  minor = record { first = b'1'; more = [] };
  fields = (codes "Host", codes "h") ∷ (codes "Host", codes "i") ∷ (codes "A", codes "b c") ∷ [];
}

parse_internal-print_example :
    parse_internal (print hello (codes "xy")) 50 (init blank_request)
    ≡ ok (ended 50 (as_request hello) DecodeState.body)
unfolding find insert equal isupper isblank isdigit
parse_internal-print_example =
    parse_internal-print hello (codes "xy") 50 blank_request
      (
        (refl, refl),
        refl,
        (refl, refl),
        (refl, refl),
        (refl, refl),
        (
          (refl, refl, refl, refl, refl),
          ((refl, refl, refl, refl, refl), ((refl, refl, refl, refl, refl), tt)),
        ),
      )
      refl

-- a request with a body of three bytes, of which one was received
abbrev sized : Message
sized = record hello { fields = (content_length, codes "3") ∷ [] }

sized-IsMessage : IsMessage sized
unfolding isupper isblank isdigit
sized-IsMessage = (
  (refl, refl),
  refl,
  (refl, refl),
  (refl, refl),
  (refl, refl),
  ((refl, refl, refl, refl, refl), tt),
)

parse_internal-print_body_example :
    parse_internal (print sized (codes "abcd")) (length (print sized []) + 1) (init blank_request)
    ≡ (if leb 3 4 then ok (completed sized (codes "abc")) else fault out_of_bounds)
unfolding find insert equal atoi
parse_internal-print_body_example =
    parse_internal-print_body sized b'a' (codes "bcd") (length (print sized []) + 1) blank_request
      sized-IsMessage (omega arith) (codes "3") 3 refl refl (omega arith)

-- the same without the field
abbrev unsized : Message
unsized = record hello { fields = [] }

unsized-IsMessage : IsMessage unsized
unfolding isupper isblank isdigit
unsized-IsMessage = ((refl, refl), refl, (refl, refl), (refl, refl), (refl, refl), tt)

parse_internal-print_unsized_example :
    (parse_internal
        (print unsized (codes "ab"))
        (length (print unsized []) + 1)
        (init blank_request)
      ≡ ok (completed unsized (codes "ab")))
    × (length (codes "ab") ≡ 2)
unfolding find
parse_internal-print_unsized_example =
    parse_internal-print_unsized unsized b'a' (codes "b") (length (print unsized []) + 1)
      blank_request unsized-IsMessage (omega arith) refl (omega arith)
