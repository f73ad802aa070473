-- ===== src/Request/Line.antt =====
-- The request line as ParseInternal reads it: method, path, protocol and version.
use wslyh.Base.{Bytes, arith, false, length, ok, refl, some, true, ℕ, ◌++◌, ◌+◌, ◌∙◌, ◌∷◌, ◌≡◌, ◌≤◌}
use wslyh.Request.{DecodeState, string_of, to_string}
use wslyh.Request.Chars.{cr, isblank, isdigit, isupper, lf}
use wslyh.Request.Loop.{is_final, scan_loop, step, step_in}
use wslyh.Request.Step.{
  Scan, begin_at, end_uri, goto, on_before_protocol, on_before_uri, on_before_version, on_in_uri,
  on_method, on_protocol, on_start, on_version, on_version_split, on_when_cr,
}
use wslyh.Request.Tokens.{all, at, keeps, scan_loop-step, scan_loop-token}

module _ (buf : Bytes) (size : ℕ) where
  abbrev begun : DecodeState → Scan → Scan
  begun DecodeState.method s =
      goto DecodeState.method
        (at (s.req.next_pos + 1) (record s { method = begin_at s.req.next_pos s.method }))
  begun DecodeState.in_uri s =
      goto DecodeState.in_uri
        (at (s.req.next_pos + 1) (record s { url = begin_at s.req.next_pos s.url }))
  begun DecodeState.protocol s =
      goto DecodeState.protocol
        (at (s.req.next_pos + 1) (record s { protocol = begin_at s.req.next_pos s.protocol }))
  begun _ s =
      goto DecodeState.version
        (at (s.req.next_pos + 1) (record s { version = begin_at s.req.next_pos s.version }))

  -- the scan behind the method `text`, its last byte in front of the offset `e`
  abbrev pub after_method : Bytes → ℕ → Scan → Scan
  after_method text e s = record s {
    method = record { begin = some s.req.next_pos; end = some e };
    req = record s.req { method = text; next_pos = e + 1; decode_state = DecodeState.before_uri };
  }

  step-method :
      (text : Bytes) (e : ℕ) (s : Scan)
      → string_of buf (some s.req.next_pos) (some e) ≡ ok text
      → step buf size b' ' (at e (begun DecodeState.method s)) ≡ ok (after_method text e s)
  unfolding step step_in on_method to_string isblank isupper
  step-method text e s h = rw h refl

  pub scan_loop-method :
      (c : ℕ) (cs rest : Bytes) (s : Scan)
      → isupper c ≡ true
      → all (keeps DecodeState.method) cs ≡ true
      → s.req.next_pos + length cs + 2 ≤ size
      → string_of buf (some s.req.next_pos) (some (s.req.next_pos + 1 + length cs)) ≡ ok (c ∷ cs)
      → scan_loop buf size (c ∷ (cs ++ b' ' ∷ rest)) (goto DecodeState.start s)
        ≡ scan_loop buf size rest (after_method (c ∷ cs) (s.req.next_pos + 1 + length cs) s)
  unfolding step step_in on_start is_final isblank isupper
  scan_loop-method c cs rest s u h l e =
      scan_loop-token buf size DecodeState.method c cs b' ' rest (goto DecodeState.start s)
        (begun DecodeState.method s) (after_method (c ∷ cs) (s.req.next_pos + 1 + length cs) s) refl
        l (ground arith) refl refl refl h
        (step-method (c ∷ cs) (s.req.next_pos + 1 + length cs) s e)

  abbrev pub after_path : Bytes → ℕ → Scan → Scan
  after_path text e s = record s {
    url = record { begin = some s.req.next_pos; end = some e };
    req = record s.req { url = text; next_pos = e + 1; decode_state = DecodeState.before_protocol };
  }

  step-path :
      (text : Bytes) (e : ℕ) (s : Scan)
      → string_of buf (some s.req.next_pos) (some e) ≡ ok text
      → step buf size b' ' (at e (begun DecodeState.in_uri s)) ≡ ok (after_path text e s)
  unfolding step step_in on_in_uri end_uri to_string isblank
  step-path text e s h = rw h refl

  pub scan_loop-path :
      (cs rest : Bytes) (s : Scan)
      → all (keeps DecodeState.in_uri) cs ≡ true
      → s.req.next_pos + length cs + 2 ≤ size
      → string_of buf (some s.req.next_pos) (some (s.req.next_pos + 1 + length cs)) ≡ ok (b'/' ∷ cs)
      → scan_loop buf size (b'/' ∷ (cs ++ b' ' ∷ rest)) (goto DecodeState.before_uri s)
        ≡ scan_loop buf size rest (after_path (b'/' ∷ cs) (s.req.next_pos + 1 + length cs) s)
  unfolding step step_in on_before_uri is_final isblank
  scan_loop-path cs rest s h l e =
      scan_loop-token buf size DecodeState.in_uri b'/' cs b' ' rest (goto DecodeState.before_uri s)
        (begun DecodeState.in_uri s) (after_path (b'/' ∷ cs) (s.req.next_pos + 1 + length cs) s)
        refl l refl refl refl refl h (step-path (b'/' ∷ cs) (s.req.next_pos + 1 + length cs) s e)

  abbrev pub after_protocol : Bytes → ℕ → Scan → Scan
  after_protocol text e s = record s {
    protocol = record { begin = some s.req.next_pos; end = some e };
    req = record s.req {
      protocol = text;
      next_pos = e + 1;
      decode_state = DecodeState.before_version;
    };
  }

  step-protocol :
      (text : Bytes) (e : ℕ) (s : Scan)
      → string_of buf (some s.req.next_pos) (some e) ≡ ok text
      → step buf size b'/' (at e (begun DecodeState.protocol s)) ≡ ok (after_protocol text e s)
  unfolding step step_in on_protocol to_string
  step-protocol text e s h = rw h refl

  pub scan_loop-protocol :
      (c : ℕ) (cs rest : Bytes) (s : Scan)
      → isblank c ≡ false
      → all (keeps DecodeState.protocol) cs ≡ true
      → s.req.next_pos + length cs + 2 ≤ size
      → string_of buf (some s.req.next_pos) (some (s.req.next_pos + 1 + length cs)) ≡ ok (c ∷ cs)
      → scan_loop buf size (c ∷ (cs ++ b'/' ∷ rest)) (goto DecodeState.before_protocol s)
        ≡ scan_loop buf size rest (after_protocol (c ∷ cs) (s.req.next_pos + 1 + length cs) s)
  unfolding step step_in on_before_protocol is_final isblank
  scan_loop-protocol c cs rest s u h l e =
      scan_loop-token buf size DecodeState.protocol c cs b'/' rest
        (goto DecodeState.before_protocol s) (begun DecodeState.protocol s)
        (after_protocol (c ∷ cs) (s.req.next_pos + 1 + length cs) s) refl l (ground arith) refl refl
        refl h (step-protocol (c ∷ cs) (s.req.next_pos + 1 + length cs) s e)

  -- behind the version and the line's end
  abbrev pub after_version : Bytes → ℕ → Scan → Scan
  after_version text e s = record s {
    version = record { begin = some s.req.next_pos; end = some e };
    req = record s.req { version = text; next_pos = e + 1 + 1; decode_state = DecodeState.cr_lf };
  }

  step-version :
      (text : Bytes) (e : ℕ) (s : Scan)
      → string_of buf (some s.req.next_pos) (some e) ≡ ok text
      → step buf size cr (at e (begun DecodeState.version s))
        ≡ ok (at (e + 1) (goto DecodeState.when_cr (after_version text e s)))
  unfolding step step_in on_version to_string
  step-version text e s h = rw h refl

  pub scan_loop-version :
      (c : ℕ) (cs : Bytes) (d : ℕ) (ds text rest : Bytes) (s : Scan)
      → isdigit c ≡ true
      → all (keeps DecodeState.version) cs ≡ true
      → isdigit d ≡ true
      → all (keeps DecodeState.version) ds ≡ true
      → s.req.next_pos + length cs + length ds + 5 ≤ size
      → string_of buf
          (some s.req.next_pos)
          (some (s.req.next_pos + 1 + length cs + 1 + 1 + length ds))
        ≡ ok text
      → scan_loop buf size
          (c ∷ (cs ++ b'.' ∷ d ∷ (ds ++ cr ∷ lf ∷ rest)))
          (goto DecodeState.before_version s)
        ≡ scan_loop buf size rest
            (after_version text (s.req.next_pos + 1 + length cs + 1 + 1 + length ds) s)
  unfolding step step_in on_before_version on_version on_version_split on_when_cr is_final isdigit
  scan_loop-version c cs d ds text rest s u h v i l e =
      let n = s.req.next_pos + 1 + length cs + 1 in
      let split = goto DecodeState.version_split (at n (begun DecodeState.version s)) in
      scan_loop-token buf size DecodeState.version c cs b'.' (d ∷ (ds ++ cr ∷ lf ∷ rest))
        (goto DecodeState.before_version s) (begun DecodeState.version s) split refl (omega arith)
        (ground arith) refl refl refl h refl
      ∙ scan_loop-token buf size DecodeState.version d ds cr (lf ∷ rest) split
          (goto DecodeState.version (at (n + 1) split))
          (at (n + 1 + length ds + 1)
            (goto DecodeState.when_cr (after_version text (n + 1 + length ds) s)))
          refl (omega arith) (ground arith) refl refl refl i
          (step-version text (n + 1 + length ds) s e)
      ∙ scan_loop-step buf size lf rest
          (at (n + 1 + length ds + 1)
            (goto DecodeState.when_cr (after_version text (n + 1 + length ds) s)))
          (after_version text (n + 1 + length ds) s) refl (omega arith) refl
