-- ===== src/Request/Fields.antt =====
-- The header fields of a request as ParseInternal reads them, one line for each.
use wslyh.Base.{
  Bytes, [], ap, arith, drop, false, length, length-append, length-drop, ok, refl, some, true, ℕ,
  ◌++◌, ◌+◌, ◌==◌, ◌∙◌, ◌∷◌, ◌≡◌, ◌≤◌,
}
use wslyh.Request.{DecodeState, Request, StringMap, insert, string_of, to_string}
use wslyh.Request.Chars.{cr, isblank, lf}
use wslyh.Request.Loop.{is_final, scan_loop, step, step_in}
use wslyh.Request.Step.{
  Scan, begin_at, goto, on_cr_lf, on_header_after_colon, on_header_key, on_header_value, on_when_cr,
}
use wslyh.Request.Tokens.{
  all, at, drop-more, keeps, scan_loop-step, scan_loop-token, string_of-token,
}

module _ (buf : Bytes) (size : ℕ) where
  -- after the key `c ∷ cs`, at the colon
  abbrev pub keyed : ℕ → Scan → Scan
  keyed k s = record s {
    header_key = record { begin = some s.req.next_pos; end = some (s.req.next_pos + 1 + k) };
    req = record s.req {
      next_pos = s.req.next_pos + 1 + k + 1;
      decode_state = DecodeState.header_after_colon;
    };
  }

  pub scan_loop-key :
      (c : ℕ) (cs rest : Bytes) (s : Scan)
      → isblank c ≡ false
      → (c == cr) ≡ false
      → all (keeps DecodeState.header_key) cs ≡ true
      → s.req.next_pos + length cs + 2 ≤ size
      → scan_loop buf size (c ∷ (cs ++ b':' ∷ rest)) (goto DecodeState.cr_lf s)
        ≡ scan_loop buf size rest (keyed (length cs) s)
  unfolding step step_in on_cr_lf on_header_key is_final isblank
  scan_loop-key c cs rest s b r h l =
      scan_loop-token buf size DecodeState.header_key c cs b':' rest (goto DecodeState.cr_lf s)
        (goto DecodeState.header_key (
          at (s.req.next_pos + 1) (record s { header_key = begin_at s.req.next_pos s.header_key })))
        (keyed (length cs) s) refl l (ground arith) refl refl refl h refl

  -- after the blank, the value of `k + 1` bytes and the line's end
  abbrev pub valued : Bytes → Bytes → ℕ → Scan → Scan
  valued key value k s = record s {
    header_value = record {
      begin = some (s.req.next_pos + 1);
      end = some (s.req.next_pos + 1 + 1 + k);
    };
    req = record s.req {
      headers = insert key value s.req.headers;
      next_pos = s.req.next_pos + 1 + 1 + k + 1 + 1;
      decode_state = DecodeState.cr_lf;
    };
  }

  step-cr :
      (key value : Bytes) (k : ℕ) (s : Scan)
      → to_string buf s.header_key ≡ ok key
      → string_of buf (some (s.req.next_pos + 1)) (some (s.req.next_pos + 1 + 1 + k)) ≡ ok value
      → step buf size cr (
          at (s.req.next_pos + 1 + 1 + k) (
            goto DecodeState.header_value
              (record s { header_value = begin_at (s.req.next_pos + 1) s.header_value })))
        ≡ ok (at (s.req.next_pos + 1 + 1 + k + 1) (goto DecodeState.when_cr (valued key value k s)))
  unfolding step step_in on_header_value to_string
  step-cr key value k s e f = rw (e, f) refl

  pub scan_loop-value :
      (key : Bytes) (c : ℕ) (cs rest : Bytes) (s : Scan)
      → to_string buf s.header_key ≡ ok key
      → string_of buf (some (s.req.next_pos + 1)) (some (s.req.next_pos + 1 + 1 + length cs))
        ≡ ok (c ∷ cs)
      → isblank c ≡ false
      → all (keeps DecodeState.header_value) cs ≡ true
      → s.req.next_pos + length cs + 4 ≤ size
      → scan_loop buf size
          (b' ' ∷ c ∷ (cs ++ cr ∷ lf ∷ rest))
          (goto DecodeState.header_after_colon s)
        ≡ scan_loop buf size rest (valued key (c ∷ cs) (length cs) s)
  unfolding step step_in on_header_after_colon on_when_cr is_final isblank
  scan_loop-value key c cs rest s e f b h l =
      scan_loop-step buf size b' ' (c ∷ (cs ++ cr ∷ lf ∷ rest))
        (goto DecodeState.header_after_colon s)
        (goto DecodeState.header_after_colon (at (s.req.next_pos + 1) s)) refl (omega arith) refl
      ∙ scan_loop-token buf size DecodeState.header_value c cs cr (lf ∷ rest)
          (goto DecodeState.header_after_colon (at (s.req.next_pos + 1) s))
          (goto DecodeState.header_value (
            at (s.req.next_pos + 1 + 1)
              (record s { header_value = begin_at (s.req.next_pos + 1) s.header_value })))
          (at (s.req.next_pos + 1 + 1 + length cs + 1)
            (goto DecodeState.when_cr (valued key (c ∷ cs) (length cs) s)))
          refl (omega arith) (ground arith) refl refl refl h
          (step-cr key (c ∷ cs) (length cs) s e f)
      ∙ scan_loop-step buf size lf rest
          (at (s.req.next_pos + 1 + 1 + length cs + 1)
            (goto DecodeState.when_cr (valued key (c ∷ cs) (length cs) s)))
          (valued key (c ∷ cs) (length cs) s) refl (omega arith) refl

-- The conditions on a header field, by the states that read it. The first byte of the key is read
-- in the state behind a line, that of the value in the one behind the colon.
abbrev pub IsField : Bytes × Bytes → Type 0
IsField (c ∷ cs, d ∷ ds) =
    (isblank c ≡ false)
    × ((c == cr) ≡ false)
    × (all (keeps DecodeState.header_key) cs ≡ true)
    × (isblank d ≡ false)
    × (all (keeps DecodeState.header_value) ds ≡ true)
IsField _ = ⊥

-- the lines of the fields in front of `rest`
abbrev pub print_fields : StringMap → Bytes → Bytes
print_fields [] rest = rest
print_fields ((key, value) ∷ m) rest = key ++ b':' ∷ b' ' ∷ (value ++ cr ∷ lf ∷ print_fields m rest)

abbrev pub insert_all : StringMap → StringMap → StringMap
insert_all [] m = m
insert_all ((k, v) ∷ fs) m = insert_all fs (insert k v m)

abbrev pub AllFields : StringMap → Type 0
AllFields [] = Unit
AllFields (f ∷ m) = IsField f × AllFields m

pub length-print_fields :
    (m : StringMap) (rest : Bytes) → length rest ≤ length (print_fields m rest)
length-print_fields [] rest = omega arith
length-print_fields ((k, v) ∷ m) rest = omega (
  arith,
  length-append k (b':' ∷ b' ' ∷ (v ++ cr ∷ lf ∷ print_fields m rest)),
  length-append v (cr ∷ lf ∷ print_fields m rest),
  length-print_fields m rest,
)

pub room :
    (buf : Bytes) (n x : ℕ) (xs : Bytes) → drop n buf ≡ x ∷ xs → n + 1 + length xs ≡ length buf
room buf n x xs h = omega (arith, ap length h, length-drop n buf)

module _ (buf : Bytes) (size : ℕ) (tail : Bytes) (received : length buf ≤ size + length tail) where
  -- the call reaches the bytes `rest` at the offset `r.next_pos`, with the request `r`
  abbrev pub Reaches : Bytes → Scan → Bytes → Request → Type 0
  Reaches text s rest r =
      (t : Scan) × (scan_loop buf size text s ≡ scan_loop buf size rest t) × (t.req ≡ r)

  pub scan_loop-fields :
      (m : StringMap) (rest : Bytes) (s : Scan)
      → AllFields m
      → length tail ≤ length rest
      → drop s.req.next_pos buf ≡ print_fields m rest
      → (n : ℕ) × (drop n buf ≡ rest)
        × Reaches (print_fields m rest) (goto DecodeState.cr_lf s) rest (record s.req {
          headers = insert_all m s.req.headers;
          next_pos = n;
          decode_state = DecodeState.cr_lf;
        })
  unfolding to_string
  scan_loop-fields [] rest s h l d = (s.req.next_pos, d, (goto DecodeState.cr_lf s, refl, refl))
  scan_loop-fields (([], v) ∷ m) rest s (h, hs) l d = absurd h
  scan_loop-fields ((c ∷ cs, []) ∷ m) rest s (h, hs) l d = absurd h
  scan_loop-fields ((c ∷ cs, v ∷ vs) ∷ m) rest s ((b, r, hk, bv, hv), hs) l d =
      let more = cr ∷ lf ∷ print_fields m rest in
      let n = s.req.next_pos in
      let s' = keyed buf size (length cs) s in
      let at_colon : drop (n + 1 + length cs) buf ≡ b':' ∷ b' ' ∷ v ∷ (vs ++ more) =
        drop-more buf n (n + 1 + length cs) (c ∷ cs) (b':' ∷ b' ' ∷ v ∷ (vs ++ more)) d
          (omega arith) in
      let at_value : drop (n + 1 + length cs + 1 + 1) buf ≡ v ∷ (vs ++ more) =
        drop-more buf (n + 1 + length cs) (n + 1 + length cs + 1 + 1) (b':' ∷ b' ' ∷ [])
          (v ∷ (vs ++ more)) at_colon (omega arith) in
      let at_cr : drop (n + 1 + length cs + 1 + 1 + 1 + length vs) buf ≡ more =
        drop-more buf (n + 1 + length cs + 1 + 1) (n + 1 + length cs + 1 + 1 + 1 + length vs)
          (v ∷ vs) more at_value (omega arith) in
      let at_next : drop (n + 1 + length cs + 1 + 1 + 1 + length vs + 1 + 1) buf
          ≡ print_fields m rest =
        drop-more buf (n + 1 + length cs + 1 + 1 + 1 + length vs)
          (n + 1 + length cs + 1 + 1 + 1 + length vs + 1 + 1) (cr ∷ lf ∷ []) (print_fields m rest)
          at_cr (omega arith) in
      let space : n + length cs + length vs + 6 ≤ size = omega (
        arith,
        room buf (n + 1 + length cs + 1 + 1) v (vs ++ more) at_value,
        length-append vs more,
        length-print_fields m rest,
      ) in
      let (n', d', (t, e, f)) =
        scan_loop-fields m rest (valued buf size (c ∷ cs) (v ∷ vs) (length vs) s') hs l at_next in
      (
        n',
        d',
        (
          t,
          scan_loop-key buf size c cs (b' ' ∷ v ∷ (vs ++ more)) s b r hk (omega arith)
              ∙ scan_loop-value buf size (c ∷ cs) v vs (print_fields m rest) s'
                  (string_of-token buf n (n + 1 + length cs) c cs (b':' ∷ b' ' ∷ v ∷ (vs ++ more)) d
                    refl)
                  (string_of-token buf (n + 1 + length cs + 1 + 1)
                    (n + 1 + length cs + 1 + 1 + 1 + length vs) v vs more at_value refl)
                  bv hv (omega arith)
              ∙ e,
          f,
        ),
      )
