-- ===== src/Request/Resume.antt =====
-- A parse that is resumed by a second call of ParseInternal, whose local variables start anew.
use wslyh.Base.{
  Bool, Bytes, [], arith, drop, false, fault, length, not, null_range, ok, true, ℕ, ◌&&◌, ◌++◌, ◌+◌,
  ◌<◌, ◌==◌, ◌||◌, ◌∷◌, ◌≡◌,
}
use wslyh.Request.{DecodeState, Request, string_of, to_string}
use wslyh.Request.Chars.{cr, isblank, isdigit, isupper}
use wslyh.Request.Loop.{fresh_locals, goes_on, parse_internal, scan_loop, step, step_in}
use wslyh.Request.Step.{
  on_header_value, on_in_uri, on_method, on_protocol, on_uri_param_value, on_version,
}

-- The bytes that leave a state as it is, in the states in which a text of the buffer is open.
abbrev pub stays : DecodeState → ℕ → Bool
stays DecodeState.method c = isupper c
stays DecodeState.in_uri c = not (c == b'?' || isblank c)
stays DecodeState.uri_param_value c = not (c == b'&' || isblank c)
stays DecodeState.protocol c = not (c == b'/')
stays DecodeState.version c = isdigit c
stays DecodeState.header_value c = not (c == cr)
stays _ c = false

-- The bytes that end the open text.
abbrev pub closes : DecodeState → ℕ → Bool
closes DecodeState.method c = isblank c
closes DecodeState.in_uri c = c == b'?' || isblank c
closes DecodeState.uri_param_value c = c == b'&' || isblank c
closes DecodeState.protocol c = c == b'/'
closes DecodeState.version c = c == cr
closes DecodeState.header_value c = c == cr
closes _ c = false

abbrev pub all_stay : DecodeState → Bytes → Bool
all_stay st [] = true
all_stay st (c ∷ cs) = stays st c && all_stay st cs

-- the same request, `n` bytes on
abbrev skip : ℕ → Request → Request
skip n r = record r { next_pos = r.next_pos + n }

step-stays :
    (st : DecodeState) (buf : Bytes) (size c : ℕ) (r : Request)
    → r.decode_state ≡ st
    → stays st c ≡ true
    → step buf size c (fresh_locals r) ≡ ok (fresh_locals (skip 1 r))
unfolding step step_in on_method on_in_uri on_uri_param_value on_protocol on_version on_header_value
step-stays DecodeState.method buf size c r e h = ground arith
step-stays DecodeState.in_uri buf size c r e h = ground arith
step-stays DecodeState.uri_param_value buf size c r e h = ground arith
step-stays DecodeState.protocol buf size c r e h = ground arith
step-stays DecodeState.version buf size c r e h = ground arith
step-stays DecodeState.header_value buf size c r e h = ground arith
step-stays _ buf size c r e h = cc

step-closes :
    (st : DecodeState) (buf : Bytes) (size c : ℕ) (r : Request)
    → r.decode_state ≡ st
    → closes st c ≡ true
    → step buf size c (fresh_locals r) ≡ fault null_range
unfolding step step_in on_method on_in_uri on_uri_param_value on_protocol on_version on_header_value
    to_string string_of
step-closes DecodeState.method buf size c r e h = ground arith
step-closes DecodeState.in_uri buf size c r e h = ground arith
step-closes DecodeState.uri_param_value buf size c r e h = ground arith
step-closes DecodeState.protocol buf size c r e h = ground arith
step-closes DecodeState.version buf size c r e h = ground arith
step-closes DecodeState.header_value buf size c r e h = ground arith
step-closes _ buf size c r e h = cc

closes-goes_on :
    (st : DecodeState) (size c : ℕ) (r : Request)
    → r.decode_state ≡ st
    → (stays st c || closes st c) ≡ true
    → r.next_pos < size
    → goes_on size r ≡ true
unfolding goes_on
closes-goes_on DecodeState.method size c r e h l = ground arith
closes-goes_on DecodeState.in_uri size c r e h l = ground arith
closes-goes_on DecodeState.uri_param_value size c r e h l = ground arith
closes-goes_on DecodeState.protocol size c r e h l = ground arith
closes-goes_on DecodeState.version size c r e h l = ground arith
closes-goes_on DecodeState.header_value size c r e h l = ground arith
closes-goes_on _ size c r e h l = cc

or_right : (a b : Bool) → b ≡ true → (a || b) ≡ true
or_right a b h = ground arith

or_left : (a b : Bool) → a ≡ true → (a || b) ≡ true
or_left a b h = ground arith

scan_loop-closes :
    (st : DecodeState) (buf : Bytes) (size : ℕ) (mid : Bytes) (c : ℕ) (rest : Bytes) (r : Request)
    → r.decode_state ≡ st
    → all_stay st mid ≡ true
    → closes st c ≡ true
    → r.next_pos + length mid < size
    → scan_loop buf size (mid ++ c ∷ rest) (fresh_locals r) ≡ fault null_range
unfolding scan_loop
scan_loop-closes st buf size [] c rest r e a h l = rw (
  closes-goes_on st size c r e (or_right (stays st c) _ h) (omega arith),
  step-closes st buf size c r e h,
)
scan_loop-closes st buf size (d ∷ mid) c rest r e a h l =
    let now : stays st d ≡ true = ground arith in
    rw
      (
        closes-goes_on st size d r e (or_left _ (closes st d) now) (omega arith),
        step-stays st buf size d r e now,
      )
      (scan_loop-closes st buf size mid c rest (skip 1 r) e (ground arith) h (omega arith))

-- When a call of ParseInternal starts with the parse inside a method, a path, a parameter's value,
-- a protocol, a version or a header's value, and the bytes received go on with that text up to the
-- byte that ends it, the call makes a std::string from a null pointer.
pub parse_internal-resumed :
    (st : DecodeState) (buf : Bytes) (size : ℕ) (mid : Bytes) (c : ℕ) (rest : Bytes) (r : Request)
    → r.decode_state ≡ st
    → drop r.next_pos buf ≡ mid ++ c ∷ rest
    → all_stay st mid ≡ true
    → closes st c ≡ true
    → r.next_pos + length mid < size
    → parse_internal buf size r ≡ fault null_range
unfolding parse_internal
parse_internal-resumed st buf size mid c rest r e d a h l =
    rw (d, scan_loop-closes st buf size mid c rest r e a h l)
