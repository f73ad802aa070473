-- ===== src/Request.antt =====
-- http/http.h: the decode states, the string ranges and the parsed request, with
-- SHttpRequest::Init and the map operations that the parser uses.
pub mod Chars
pub mod Step
pub mod Loop
pub mod Tokens
pub mod Fields
pub mod Line
pub mod Ending
pub mod Message
pub mod Printed
pub mod Locals
pub mod Cases
pub mod Safety
pub mod Resume
pub mod Body
mod Tests
use wslyh.Base.{
  Bool, Bytes, List, Option, Outcome, [], bad_length, equal, false, fault, if◌then◌else◌, leb, none,
  null_range, ok, read_bytes, some, ℕ, ◌-◌, ◌∷◌,
}

pub data DecodeState : Type 0 where
  invalid invalid_method invalid_uri invalid_version invalid_header : DecodeState
  start method : DecodeState
  before_uri in_uri before_uri_param_key uri_param_key : DecodeState
  before_uri_param_value uri_param_value : DecodeState
  before_protocol protocol before_version version_split version : DecodeState
  header_key header_before_colon header_after_colon header_value : DecodeState
  when_cr cr_lf cr_lf_cr body complete opened : DecodeState

-- A range of the buffer; a pointer is an offset into the buffer, `none` is nullptr.
pub record StringBuffer : Type 0 where
  pub begin : Option ℕ
  pub end : Option ℕ

abbrev pub no_range : StringBuffer
no_range = record { begin = none; end = none }

-- std::string(begin, end)
unfoldable pub string_of : Bytes → Option ℕ → Option ℕ → Outcome Bytes
string_of buf none none = ok []
string_of buf none (some e) = fault null_range
string_of buf (some b) none = fault bad_length
string_of buf (some b) (some e) = if leb b e then read_bytes buf b (e - b) else fault bad_length

-- StringBuffer::operator std::string
unfoldable pub to_string : Bytes → StringBuffer → Outcome Bytes
to_string buf r = string_of buf r.begin r.end

-- std::map<std::string, std::string>, in the order of insertion, which nothing here reads.
abbrev pub StringMap : Type 0
StringMap = List (Bytes × Bytes)

unfoldable pub find : Bytes → StringMap → Option Bytes
find k [] = none
find k ((j, v) ∷ m) = if equal j k then some v else find k m

-- map::insert leaves a key that is there alone
unfoldable pub insert : Bytes → Bytes → StringMap → StringMap
insert k v [] = (k, v) ∷ []
insert k v ((j, w) ∷ m) = if equal j k then (j, w) ∷ m else (j, w) ∷ insert k v m

pub record Request : Type 0 where
  pub method : Bytes
  pub url : Bytes
  pub request_params : StringMap
  pub protocol : Bytes
  pub version : Bytes
  pub headers : StringMap
  pub body : Bytes
  pub next_pos : ℕ
  pub is_open : Bool
  pub decode_state : DecodeState

-- SHttpRequest::Init, on a request in any state
pub init : Request → Request
init r = record {
  method = [];
  url = [];
  request_params = [];
  protocol = [];
  version = [];
  headers = [];
  body = [];
  next_pos = 0;
  is_open = false;
  decode_state = DecodeState.start;
}
