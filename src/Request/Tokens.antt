-- ===== src/Request/Tokens.antt =====
-- How the loop of ParseInternal reads one text of a request: a byte that opens it, bytes that go on
-- with it, and a byte that closes it.
use wslyh.Base.{
  Bool, Bytes, List, [], ap, arith, drop, drop-append, drop-drop, false, length, length-append,
  length-drop, not, ok, read_bytes, refl, some, suc, take, take-append, true, ℕ, ◌&&◌, ◌++◌, ◌+◌,
  ◌-◌, ◌<◌, ◌==◌, ◌∙◌, ◌∷◌, ◌≡◌, ◌≤◌,
}
use wslyh.Request.{DecodeState, Request, string_of}
use wslyh.Request.Chars.{cr, isblank, isdigit, isupper}
use wslyh.Request.Loop.{goes_on, is_final, scan_loop, step, step_in}
use wslyh.Request.Step.{
  Scan, on_header_key, on_header_value, on_in_uri, on_method, on_protocol, on_uri_param_key,
  on_uri_param_value, on_version,
}

abbrev pub all {ℓ} : {A : Type ℓ} → (A → Bool) → List A → Bool
all p [] = true
all p (x ∷ xs) = p x && all p xs

-- the bytes that a state goes on with
abbrev pub keeps : DecodeState → ℕ → Bool
keeps DecodeState.method c = isupper c
keeps DecodeState.in_uri c = not (c == b'?') && not (isblank c)
keeps DecodeState.uri_param_key c = not (c == b'=') && not (isblank c)
keeps DecodeState.uri_param_value c = not (c == b'&') && not (isblank c)
keeps DecodeState.protocol c = not (c == b'/')
keeps DecodeState.version c = isdigit c
keeps DecodeState.header_key c = not (c == b':') && not (isblank c)
keeps DecodeState.header_value c = not (c == cr)
keeps _ c = false

abbrev pub at : ℕ → Scan → Scan
at n s = record s { req = record s.req { next_pos = n } }

module _ (buf : Bytes) (size : ℕ) where
  step-keeps :
      (st : DecodeState) (c : ℕ) (s : Scan)
      → s.req.decode_state ≡ st
      → keeps st c ≡ true
      → step buf size c s ≡ ok (at (s.req.next_pos + 1) s)
  unfolding step step_in on_method on_in_uri on_uri_param_key on_uri_param_value on_protocol
      on_version on_header_key on_header_value
  step-keeps DecodeState.method c s e h = ground arith
  step-keeps DecodeState.in_uri c s e h = ground arith
  step-keeps DecodeState.uri_param_key c s e h = ground arith
  step-keeps DecodeState.uri_param_value c s e h = ground arith
  step-keeps DecodeState.protocol c s e h = ground arith
  step-keeps DecodeState.version c s e h = ground arith
  step-keeps DecodeState.header_key c s e h = ground arith
  step-keeps DecodeState.header_value c s e h = ground arith
  step-keeps _ c s e h = cc

  pub goes_on_lem :
      (st : DecodeState) (r : Request)
      → r.decode_state ≡ st
      → is_final st ≡ false
      → r.next_pos < size
      → goes_on size r ≡ true
  unfolding goes_on
  goes_on_lem st r e f l = ground arith

  pub scan_loop-step :
      (c : ℕ) (rest : Bytes) (s t : Scan)
      → is_final s.req.decode_state ≡ false
      → s.req.next_pos < size
      → step buf size c s ≡ ok t
      → scan_loop buf size (c ∷ rest) s ≡ scan_loop buf size rest t
  unfolding scan_loop
  scan_loop-step c rest s t f l e = rw (goes_on_lem s.req.decode_state s.req refl f l, e)

  scan_loop-keeps :
      (st : DecodeState) (cs rest : Bytes) (s : Scan)
      → s.req.decode_state ≡ st
      → is_final st ≡ false
      → all (keeps st) cs ≡ true
      → s.req.next_pos + length cs ≤ size
      → scan_loop buf size (cs ++ rest) s
        ≡ scan_loop buf size rest (at (s.req.next_pos + length cs) s)
  scan_loop-keeps st [] rest s e f h l = ap (λ n. scan_loop buf size rest (at n s)) (omega arith)
  scan_loop-keeps st (c ∷ cs) rest s e f h l =
      scan_loop-step c (cs ++ rest) s (at (s.req.next_pos + 1) s) (ap is_final e ∙ f) (omega arith)
        (step-keeps st c s e (ground arith))
      ∙ scan_loop-keeps st cs rest (at (s.req.next_pos + 1) s) e f (ground arith) (omega arith)
      ∙ ap (λ n. scan_loop buf size rest (at n s)) (omega arith)

  -- a text `c ∷ cs` closed by `d`
  pub scan_loop-token :
      (st : DecodeState) (c : ℕ) (cs : Bytes) (d : ℕ) (rest : Bytes) (s s1 t : Scan)
      → is_final s.req.decode_state ≡ false
      → s.req.next_pos + length cs + 2 ≤ size
      → step buf size c s ≡ ok s1
      → s1.req.decode_state ≡ st
      → is_final st ≡ false
      → s1.req.next_pos ≡ s.req.next_pos + 1
      → all (keeps st) cs ≡ true
      → step buf size d (at (s.req.next_pos + 1 + length cs) s1) ≡ ok t
      → scan_loop buf size (c ∷ (cs ++ d ∷ rest)) s ≡ scan_loop buf size rest t
  scan_loop-token st c cs d rest s s1 t f l opens e g n h close =
      scan_loop-step c (cs ++ d ∷ rest) s s1 f (omega arith) opens
      ∙ scan_loop-keeps st cs (d ∷ rest) s1 e g h (omega arith)
      ∙ ap (λ n. scan_loop buf size (d ∷ rest) (at n s1)) (ap (λ n. n + length cs) n)
      ∙ scan_loop-step d rest (at (s.req.next_pos + 1 + length cs) s1) t (ap is_final e ∙ g)
          (omega arith) close

-- The text that starts at an offset of the buffer.
pub string_of-token :
    (buf : Bytes) (p e c : ℕ) (cs rest : Bytes)
    → drop p buf ≡ c ∷ (cs ++ rest)
    → e ≡ p + 1 + length cs
    → string_of buf (some p) (some e) ≡ ok (c ∷ cs)
unfolding string_of read_bytes
string_of-token buf p e c cs rest d h =
    let left : e - p ≡ suc (length cs) = omega arith in
    let whole : length (drop p buf) ≡ suc (length cs + length rest) =
      ap length d ∙ ap suc (length-append cs rest) in
    let fits : p + suc (length cs) ≤ length buf = omega (arith, length-drop p buf, whole) in
    let text : take (suc (length cs)) (drop p buf) ≡ c ∷ cs =
      ap (take (suc (length cs))) d ∙ ap (◌∷◌ c) (take-append cs rest) in
    rw left (ground arith)

pub drop-more :
    (buf : Bytes) (p q : ℕ) (text rest : Bytes)
    → drop p buf ≡ text ++ rest
    → q ≡ p + length text
    → drop q buf ≡ rest
drop-more buf p q text rest d h =
    ap (λ n. drop n buf) h
    ∙ drop-drop p (length text) buf
    ∙ ap (drop (length text)) d
    ∙ drop-append text rest
