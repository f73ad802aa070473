-- ===== src/Request/Locals.antt =====
-- What the local variables of a call of ParseInternal hold in each state, and which faults the
-- length of the body can lead to.
use wslyh.Request.Chars.{atoi}
use wslyh.Base.{
  Bytes, Fault, Option, Outcome, arith, drop, fault, is_positive, length, no_int, none, ok,
  out_of_bounds, pos, read_bytes, some, true, ℕ, ◌+◌, ◌-◌, ◌<◌, ◌≡◌, ◌≤◌,
}
use wslyh.Request.{DecodeState, find, string_of}
use wslyh.Request.Step.{Scan, content_length}

-- The range has a begin, not past `n`.
abbrev pub BeginsBy : ℕ → Option ℕ → Type 0
BeginsBy n none = ⊥
BeginsBy n (some b) = b ≤ n

-- The range has a begin and an end in order, not past `n`.
abbrev pub RangeBy : ℕ → Option ℕ → Option ℕ → Type 0
RangeBy n (some b) (some e) = (b ≤ e) × (e ≤ n)
RangeBy n _ _ = ⊥

-- What the local variables hold in each state, `n` bytes into the buffer.
abbrev pub LocalsInv : DecodeState → ℕ → Scan → Type 0
LocalsInv DecodeState.method n s = BeginsBy n s.method.begin
LocalsInv DecodeState.in_uri n s = BeginsBy n s.url.begin
LocalsInv DecodeState.uri_param_key n s = BeginsBy n s.param_key.begin
LocalsInv DecodeState.before_uri_param_value n s = RangeBy n s.param_key.begin s.param_key.end
LocalsInv DecodeState.uri_param_value n s =
    RangeBy n s.param_key.begin s.param_key.end × BeginsBy n s.param_value.begin
LocalsInv DecodeState.protocol n s = BeginsBy n s.protocol.begin
LocalsInv DecodeState.version n s = BeginsBy n s.version.begin
LocalsInv DecodeState.version_split n s = BeginsBy n s.version.begin
LocalsInv DecodeState.header_key n s = BeginsBy n s.header_key.begin
LocalsInv DecodeState.header_before_colon n s = RangeBy n s.header_key.begin s.header_key.end
LocalsInv DecodeState.header_after_colon n s = RangeBy n s.header_key.begin s.header_key.end
LocalsInv DecodeState.header_value n s =
    RangeBy n s.header_key.begin s.header_key.end × BeginsBy n s.header_value.begin
LocalsInv DecodeState.body n s = is_positive s.body_length ≡ true
LocalsInv _ n s = Unit

-- A fault at position `p`, by the state: behind the last CR, the value of Content-Length is no int;
-- in the body, its length is more than the buffer has from there.
abbrev pub FaultAt : Bytes → DecodeState → ℕ → Scan → Fault → Type 0
FaultAt buf DecodeState.cr_lf_cr p s f =
    (f ≡ no_int)
    × (value : Bytes) × (find content_length s.req.headers ≡ some value)
    × (atoi value ≡ fault no_int)
FaultAt buf DecodeState.body p s f =
    (f ≡ out_of_bounds) × (n : ℕ) × (s.body_length ≡ pos n) × (length buf < p + n)
FaultAt buf _ p s f = ⊥

-- The step at position `p` in the state `st` with the locals `s` goes on to the next byte, with the
-- locals as the next state needs them, or has a fault of that state.
abbrev pub StepInv : Bytes → DecodeState → ℕ → Scan → Outcome Scan → Type 0
StepInv buf st p s (ok t) = LocalsInv t.req.decode_state (p + 1) t × (t.req.next_pos ≡ p + 1)
StepInv buf st p s (fault f) = FaultAt buf st p s f

pub read_bytes_cases :
    (buf : Bytes) (p n : ℕ)
    → p + n ≤ length buf
    → read_bytes buf p n ≡ ok (wslyh.Base.take n (drop p buf))
unfolding read_bytes
read_bytes_cases buf p n h = ground arith

-- a range within the array gives a text
pub string_of_ok :
    (buf : Bytes) (b e : Option ℕ) (n : ℕ)
    → RangeBy n b e
    → n ≤ length buf
    → (t : Bytes) × (string_of buf b e ≡ ok t)
unfolding string_of
string_of_ok buf (some b) (some e) n h l =
    (wslyh.Base.take (e - b) (drop b buf), ground (arith, read_bytes_cases buf b (e - b)))
string_of_ok buf (some b) none n h l = elim h [ ]
string_of_ok buf none (some e) n h l = elim h [ ]
string_of_ok buf none none n h l = elim h [ ]

pub begin_range : (n : ℕ) (b : Option ℕ) → BeginsBy n b → RangeBy n b (some n)
begin_range n (some b) h = ground arith
begin_range n none h = elim h [ ]
