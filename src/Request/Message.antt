-- ===== src/Request/Message.antt =====
-- Requests in print, without parameters in the path, and how ParseInternal reads them back.
use wslyh.Request.Line.{
  after_method, after_path, after_protocol, after_version, scan_loop-method, scan_loop-path,
  scan_loop-protocol, scan_loop-version,
}
use wslyh.Base.{
  Bool, Bytes, [], ap, append_assoc, arith, drop, false, length, length-append, length-drop, not,
  ok, refl, some, sym, true, ℕ, ◌++◌, ◌+◌, ◌>>=◌, ◌∙◌, ◌∷◌, ◌≡◌, ◌≤◌,
}
use wslyh.Request.{DecodeState, Request, StringMap, find, init, string_of}
use wslyh.Request.Chars.{cr, isblank, isdigit, isupper, lf}
use wslyh.Request.Loop.{fresh_locals, parse_internal, scan_loop}
use wslyh.Request.Step.{Scan, content_length, goto}
use wslyh.Request.Tokens.{all, at, drop-more, keeps, string_of-token}
use wslyh.Request.Fields.{
  AllFields, insert_all, length-print_fields, print_fields, room, scan_loop-fields,
}
use wslyh.Request.Ending.{end_state, ended, scan_loop-end}

-- a text that is not empty: its first byte and the bytes behind it
pub record Text : Type 0 where
  pub first : ℕ
  pub more : Bytes

abbrev pub bytes : Text → Bytes
bytes t = t.first ∷ t.more

-- A request up to its body. The path stands without its leading slash.
pub record Message : Type 0 where
  pub method : Text
  pub path : Bytes
  pub protocol : Text
  pub major : Text
  pub minor : Text
  pub fields : StringMap

-- the message in print, in front of `tail`
abbrev pub print : Message → Bytes → Bytes
print m tail =
    m.method.first
    ∷ (m.method.more
        ++ b' '
          ∷ b'/'
          ∷ (m.path
              ++ b' '
                ∷ m.protocol.first
                ∷ (m.protocol.more
                    ++ b'/'
                      ∷ m.major.first
                      ∷ (m.major.more
                          ++ b'.'
                            ∷ m.minor.first
                            ∷ (m.minor.more ++ cr ∷ lf ∷ print_fields m.fields (cr ∷ lf ∷ tail))))))

-- A text whose first byte satisfies `p`, and whose other bytes a state goes on with.
abbrev pub IsText : (ℕ → Bool) → DecodeState → Text → Type 0
IsText p st t = (p t.first ≡ true) × (all (keeps st) t.more ≡ true)

-- The conditions on the parts, by the states that read them.
abbrev pub IsMessage : Message → Type 0
IsMessage m =
    IsText isupper DecodeState.method m.method
    × (all (keeps DecodeState.in_uri) m.path ≡ true)
    × IsText (λ c. not (isblank c)) DecodeState.protocol m.protocol
    × IsText isdigit DecodeState.version m.major
    × IsText isdigit DecodeState.version m.minor
    × AllFields m.fields

-- the request that holds the message's parts
abbrev pub as_request : Message → Request
as_request m = record {
  method = bytes m.method;
  url = b'/' ∷ m.path;
  request_params = [];
  protocol = bytes m.protocol;
  version = bytes m.major ++ b'.' ∷ bytes m.minor;
  headers = insert_all m.fields [];
  body = [];
  next_pos = 0;
  is_open = false;
  decode_state = DecodeState.start;
}

past :
    (buf : Bytes) (n c : ℕ) (cs : Bytes) (x : ℕ) (rest : Bytes)
    → drop n buf ≡ c ∷ (cs ++ x ∷ rest)
    → drop (n + 1 + length cs + 1) buf ≡ rest
past buf n c cs x rest d =
    drop-more buf (n + 1 + length cs) (n + 1 + length cs + 1) (x ∷ []) rest
      (drop-more buf n (n + 1 + length cs) (c ∷ cs) (x ∷ rest) d (omega arith)) (omega arith)

module _ (m : Message) (tail : Bytes) where
  -- what is in print from the fields, the minor version, the version, the protocol and the path on
  abbrev from_fields : Bytes
  from_fields = print_fields m.fields (cr ∷ lf ∷ tail)

  abbrev from_minor : Bytes
  from_minor = m.minor.first ∷ (m.minor.more ++ cr ∷ lf ∷ from_fields)

  abbrev from_version : Bytes
  from_version = m.major.first ∷ (m.major.more ++ b'.' ∷ from_minor)

  abbrev from_protocol : Bytes
  from_protocol = m.protocol.first ∷ (m.protocol.more ++ b'/' ∷ from_version)

  abbrev from_path : Bytes
  from_path = b'/' ∷ (m.path ++ b' ' ∷ from_protocol)

  abbrev version_text : Bytes
  version_text = bytes m.major ++ b'.' ∷ bytes m.minor

  -- the offsets of these
  abbrev n1 : ℕ
  n1 = 0 + 1 + length m.method.more + 1

  abbrev n2 : ℕ
  n2 = n1 + 1 + length m.path + 1

  abbrev n3 : ℕ
  n3 = n2 + 1 + length m.protocol.more + 1

  abbrev k4 : ℕ
  k4 = n3 + 1 + length m.major.more + 1

  abbrev n4 : ℕ
  n4 = k4 + 1 + length m.minor.more + 1 + 1

  at_path : drop n1 (print m tail) ≡ from_path
  at_path = past (print m tail) 0 m.method.first m.method.more b' ' from_path refl

  at_protocol : drop n2 (print m tail) ≡ from_protocol
  at_protocol = past (print m tail) n1 b'/' m.path b' ' from_protocol at_path

  at_version : drop n3 (print m tail) ≡ from_version
  at_version = past (print m tail) n2 m.protocol.first m.protocol.more b'/' from_version at_protocol

  at_minor : drop k4 (print m tail) ≡ from_minor
  at_minor = past (print m tail) n3 m.major.first m.major.more b'.' from_minor at_version

  at_fields : drop n4 (print m tail) ≡ from_fields
  at_fields =
      drop-more (print m tail) (k4 + 1 + length m.minor.more + 1) n4 (lf ∷ []) from_fields
        (past (print m tail) k4 m.minor.first m.minor.more cr (lf ∷ from_fields) at_minor)
        (omega arith)

  version_string :
      string_of (print m tail) (some n3) (some (k4 + 1 + length m.minor.more)) ≡ ok version_text
  version_string =
      string_of-token (print m tail) n3 (k4 + 1 + length m.minor.more) m.major.first
        (m.major.more ++ b'.' ∷ bytes m.minor) (cr ∷ lf ∷ from_fields)
        (at_version
          ∙ ap (◌∷◌ m.major.first)
              (sym (append_assoc m.major.more (b'.' ∷ bytes m.minor) (cr ∷ lf ∷ from_fields))))
        (omega (arith, length-append m.major.more (b'.' ∷ bytes m.minor)))

  -- the object and the locals behind the request line
  abbrev behind_line : ℕ → Scan → Scan
  behind_line size s =
      after_version (print m tail) size version_text (k4 + 1 + length m.minor.more) (
        after_protocol (print m tail) size (bytes m.protocol) (n2 + 1 + length m.protocol.more) (
          after_path (print m tail) size (b'/' ∷ m.path) (n1 + 1 + length m.path)
            (after_method (print m tail) size (bytes m.method) (0 + 1 + length m.method.more) s)))

  space : (size : ℕ) → length (print m tail) ≤ size + length tail → n4 + 2 ≤ size
  space size l = omega (
    arith,
    ap length at_fields,
    length-drop n4 (print m tail),
    length-print_fields m.fields (cr ∷ lf ∷ tail),
    l,
  )

  scan_loop-line :
      (size : ℕ) (s : Scan)
      → s.req.next_pos ≡ 0
      → IsMessage m
      → n4 + 2 ≤ size
      → scan_loop (print m tail) size (print m tail) (at 0 (goto DecodeState.start s))
        ≡ scan_loop (print m tail) size from_fields (behind_line size (at 0 s))
  scan_loop-line size s z ((mc, mk), pk, (tc, tk), (vc, vk), (wc, wk), fk) l =
      let buf = print m tail in
      let s0 = at 0 s in
      let s1 = after_method buf size (bytes m.method) (0 + 1 + length m.method.more) s0 in
      let s2 = after_path buf size (b'/' ∷ m.path) (n1 + 1 + length m.path) s1 in
      let s3 = after_protocol buf size (bytes m.protocol) (n2 + 1 + length m.protocol.more) s2 in
      scan_loop-method buf size m.method.first m.method.more from_path s0 mc mk (omega arith) (
        string_of-token buf 0 (0 + 1 + length m.method.more) m.method.first m.method.more
          (b' ' ∷ from_path) refl refl)
      ∙ scan_loop-path buf size m.path from_protocol s1 pk (omega arith) (
          string_of-token buf n1 (n1 + 1 + length m.path) b'/' m.path (b' ' ∷ from_protocol) at_path
            refl)
      ∙ scan_loop-protocol buf size m.protocol.first m.protocol.more from_version s2 (ground arith)
          tk (omega arith)
          (string_of-token buf n2 (n2 + 1 + length m.protocol.more) m.protocol.first m.protocol.more
            (b'/' ∷ from_version) at_protocol refl)
      ∙ scan_loop-version buf size m.major.first m.major.more m.minor.first m.minor.more
          version_text from_fields s3 vc vk wc wk (omega arith) version_string

-- the request behind its first line and its fields, at the offset of what follows them
abbrev pub AtEnd : Message → Bytes → ℕ → Request → Type 0
AtEnd m tail size r =
    (t : Scan) × (n : ℕ) × (scan_loop (print m tail) size (print m tail) (fresh_locals (init r))
      ≡ scan_loop (print m tail) size (cr ∷ lf ∷ tail) t)
    × (t.req ≡ record (as_request m) { next_pos = n; decode_state = DecodeState.cr_lf })
    × (drop n (print m tail) ≡ cr ∷ lf ∷ tail)

-- ParseInternal on a new request gets to the blank line.
pub parse_internal-AtEnd :
    (m : Message) (tail : Bytes) (size : ℕ) (r : Request)
    → IsMessage m
    → length (print m tail) ≤ size + length tail
    → AtEnd m tail size r
unfolding init
parse_internal-AtEnd m tail size r h l =
    let buf = print m tail in
    let s0 = fresh_locals (init r) in
    let (n5, d5, (t, e, f)) =
      scan_loop-fields buf size tail l m.fields (cr ∷ lf ∷ tail) (behind_line m tail size s0) h.5
        (omega arith) (at_fields m tail) in
    (t, n5, scan_loop-line m tail size s0 refl h (space m tail size l) ∙ e, f, d5)

-- A request is in print as `METHOD /path PROTOCOL/major.minor`, lines `key: value` and a blank
-- line. ParseInternal on a new request reads back every part of it, from any buffer that begins
-- with the print, when what was received ends where the print ends; a key that stands twice keeps
-- its first value. By the value of the Content-Length, the request is then complete where the value
-- is not positive, in the state for the body where it is positive or there is none, and the call
-- faults as atoi does. The conditions: each part but the path behind its slash is not empty; the
-- method has capital letters only, the version digits only, the path no blank and no question mark,
-- the protocol no blank at the front and no slash behind its first byte; a key holds no blank, no
-- colon behind its first byte and no carriage return at the front; a value has no blank at the
-- front and no carriage return behind its first byte.
pub parse_internal-print :
    (m : Message) (tail : Bytes) (size : ℕ) (r : Request)
    → IsMessage m
    → size + length tail ≡ length (print m tail)
    → parse_internal (print m tail) size (init r) ≡ (
        end_state (find content_length (insert_all m.fields [])) >>= λ st.
        ok (ended size (as_request m) st))
unfolding parse_internal init
parse_internal-print m tail size r h l =
    let buf = print m tail in
    let (t, n5, e, f, d5) = parse_internal-AtEnd m tail size r h (omega (arith, l)) in
    ap (λ o. o >>= λ s. ok s.req) e
    ∙ scan_loop-end buf size tail t (ap (λ q. q.decode_state) f)
        (omega (arith, ap (λ q. q.next_pos) f, room buf n5 cr (lf ∷ tail) d5, l))
    ∙ ap (λ q. end_state (find content_length q.headers) >>= λ st. ok (ended size q st)) f
