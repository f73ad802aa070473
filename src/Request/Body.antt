-- ===== src/Request/Body.antt =====
-- The body of a request in print, where bytes behind its header are received with it.
use wslyh.Request.Fields.{insert_all, room}
use wslyh.Request.Printed.{print-tail}
use wslyh.Request.Message.{IsMessage, Message, as_request, parse_internal-AtEnd, print}
use wslyh.Request.Ending.{step-cr, step-lf}
use wslyh.Request.Tokens.{at, goes_on_lem, scan_loop-step}
use wslyh.Request.Step.{Scan, assign, content_length, goto, on_body, set_body_length}
use wslyh.Request.Chars.{atoi, cr, lf}
use wslyh.Request.{DecodeState, Request, find, init}
use wslyh.Base.{
  Bool, Bool-cases, Bytes, Outcome, [], ap, arith, drop, drop-append, false, fault, if◌then◌else◌,
  inl, inr, leb, length, length-append, length-take, none, ok, out_of_bounds, pos, read_bytes, refl,
  some, sym, take, true, ℕ, ◌+◌, ◌-◌, ◌<◌, ◌>>=◌, ◌∙◌, ◌∷◌, ◌≡◌,
}
use wslyh.Request.Loop.{goes_on, is_final, parse_internal, scan_loop, step, step_in}

-- the request with its body read, and the byte behind the header
abbrev pub with_body : Bytes → Request → Request
with_body text r = record r {
  body = text;
  next_pos = r.next_pos + 1;
  decode_state = DecodeState.complete;
}

module _ (buf : Bytes) (size d : ℕ) (rest : Bytes) where
  scan_loop-complete :
      (s : Scan) → s.req.decode_state ≡ DecodeState.complete → scan_loop buf size rest s ≡ ok s
  unfolding scan_loop goes_on
  scan_loop-complete s h = elim rest as (λ l. scan_loop buf size l s ≡ ok s) [
    | [] ↦ ground arith
    | x ∷ xs ↦ ground arith
  ]

  -- the locals where the body has `n` bytes
  abbrev at_body : ℕ → Scan → Scan
  at_body n s = goto DecodeState.body (record s { body_length = pos n })

  step-at_body :
      (n : ℕ) (s : Scan)
      → step buf size d (at_body n s) ≡ (
          read_bytes buf s.req.next_pos n >>= λ text.
          ok (record (at_body n s) { req = with_body text s.req }))
  unfolding step step_in on_body assign
  step-at_body n s = refl

  scan_loop-body :
      (n : ℕ) (s : Scan)
      → s.req.next_pos < size
      → (scan_loop buf size (d ∷ rest) (at_body n s) >>= λ u. ok u.req)
        ≡ (read_bytes buf s.req.next_pos n >>= λ text. ok (with_body text s.req))
  unfolding scan_loop is_final
  scan_loop-body n s l =
      let on = goes_on_lem buf size DecodeState.body (at_body n s).req refl refl l in
      rw (on, step-at_body n s) (finish (read_bytes buf s.req.next_pos n))
    where
      finish :
          (o : Outcome Bytes)
          → (((o >>= λ text. ok (record (at_body n s) { req = with_body text s.req })) >>= λ t.
                scan_loop buf size rest t)
              >>= λ u. ok u.req)
            ≡ (o >>= λ text. ok (with_body text s.req))
      finish (ok text) =
          rw (scan_loop-complete (record (at_body n s) { req = with_body text s.req }) refl) refl
      finish (fault f) = refl

  -- from the blank line on, where the length of the body is `n`
  scan_loop-header_end :
      (n : ℕ) (s : Scan)
      → s.req.decode_state ≡ DecodeState.cr_lf
      → s.req.next_pos + 2 < size
      → set_body_length
          (s.req.next_pos + 1)
          size
          (find content_length s.req.headers)
          (at (s.req.next_pos + 1 + 1) (goto DecodeState.cr_lf_cr s))
        ≡ ok (at_body n (at (s.req.next_pos + 1 + 1) (goto DecodeState.cr_lf_cr s)))
      → (scan_loop buf size (cr ∷ lf ∷ d ∷ rest) s >>= λ u. ok u.req) ≡ (
          read_bytes buf (s.req.next_pos + 1 + 1) n >>= λ text.
          ok (with_body text (record s.req { next_pos = s.req.next_pos + 1 + 1 })))
  unfolding is_final
  scan_loop-header_end n s e l sets =
      let s1 = at (s.req.next_pos + 1) (goto DecodeState.cr_lf_cr s) in
      let s2 = at (s.req.next_pos + 1 + 1) (goto DecodeState.cr_lf_cr s) in
      ap (λ o. o >>= λ u. ok u.req)
        (scan_loop-step buf size cr (lf ∷ d ∷ rest) s s1 (ap is_final e) (omega (arith, l))
            (step-cr buf size s e)
          ∙ scan_loop-step buf size lf (d ∷ rest) s1 (at_body n s2) refl (omega (arith, l))
              (step-lf buf size s ∙ sets))
      ∙ scan_loop-body n s2 (omega (arith, l))

-- the request of a message with `text` as its body, one byte of it passed
abbrev pub completed : Message → Bytes → Request
completed m text = with_body text (record (as_request m) { next_pos = length (print m []) })

-- A whole request, with `d ∷ rest` in the buffer behind it.
module _ (m : Message) (d : ℕ) (rest : Bytes) (size : ℕ) (r : Request) (is_message : IsMessage m)
    (received : length (print m []) < size) where
  abbrev buf : Bytes
  buf = print m (d ∷ rest)

  abbrev header_len : ℕ
  header_len = length (print m [])

  sizes : length buf ≡ header_len + length (d ∷ rest)
  sizes =
      ap (λ (b : Bytes). length b) (print-tail m (d ∷ rest)) ∙ length-append (print m []) (d ∷ rest)

  behind : drop header_len buf ≡ d ∷ rest
  behind =
      ap (λ b. drop header_len b) (print-tail m (d ∷ rest)) ∙ drop-append (print m []) (d ∷ rest)

  read-body :
      (n : ℕ)
      → read_bytes buf header_len n
        ≡ (if leb n (length (d ∷ rest)) then ok (take n (d ∷ rest)) else fault out_of_bounds)
  unfolding read_bytes
  read-body n = elim (Bool-cases (leb n (length (d ∷ rest)))) [
    | inl fits ↦
        let whole : leb (header_len + n) (length buf) ≡ true = ground (arith, sizes) in
        rw (fits, whole, behind) refl
    | inr short ↦
        let too_long : leb (header_len + n) (length buf) ≡ false = ground (arith, sizes) in
        rw (short, too_long) refl
  ]

  if_read :
      (b : Bool) (text : Bytes)
      → ((if b then ok text else fault out_of_bounds) >>= λ o. ok (completed m o))
        ≡ (if b then ok (completed m text) else fault out_of_bounds)
  if_read true text = refl
  if_read false text = refl

  -- the parse, where the length of the body is `n`
  body_by :
      (n : ℕ)
      → ((p : ℕ) (s : Scan)
          → p + 1 ≡ header_len
          → set_body_length p size (find content_length (insert_all m.fields [])) s
            ≡ ok (at_body buf size d rest n s))
      → parse_internal buf size (init r) ≡ (
          if leb n (length (d ∷ rest))
          then ok (completed m (take n (d ∷ rest)))
          else fault out_of_bounds)
  unfolding parse_internal init
  body_by n sets =
      let (t, n5, e, f, d5) =
        parse_internal-AtEnd m (d ∷ rest) size r is_message (omega (arith, sizes, received)) in
      let at_lf : n5 + 1 + 1 ≡ header_len =
        omega (arith, sizes, room buf n5 cr (lf ∷ d ∷ rest) d5) in
      let place : t.req.next_pos ≡ n5 = ap (λ q. q.next_pos) f in
      let fields : find content_length t.req.headers
          ≡ find content_length (insert_all m.fields []) =
        ap (λ q. find content_length q.headers) f in
      ap (λ o. o >>= λ u. ok u.req) e
      ∙ scan_loop-header_end buf size d rest n t (ap (λ q. q.decode_state) f)
          (omega (arith, place, at_lf, received))
          (ap
              (λ v.
                set_body_length (t.req.next_pos + 1) size v
                  (at (t.req.next_pos + 1 + 1) (goto DecodeState.cr_lf_cr t)))
              fields
            ∙ sets (t.req.next_pos + 1) (at (t.req.next_pos + 1 + 1) (goto DecodeState.cr_lf_cr t))
                (omega (arith, place, at_lf)))
      ∙ ap
          (λ q. read_bytes buf (q.next_pos + 1 + 1) n >>= λ text.
            ok (with_body text (record q { next_pos = q.next_pos + 1 + 1 })))
          f
      ∙ ap
          (λ x. read_bytes buf x n >>= λ text.
            ok (with_body text (record (as_request m) { next_pos = x })))
          at_lf
      ∙ ap (λ o. o >>= λ text. ok (completed m text)) (read-body n)
      ∙ if_read (leb n (length (d ∷ rest))) (take n (d ∷ rest))

  -- A request in print (as for `parse_internal-print`) with a Content-Length of `n` more than 0, of
  -- which the whole header and at least one byte more were received. ParseInternal takes as the body
  -- the `n` bytes of the buffer behind the header, whatever number of them was received, and the
  -- request is complete, one byte behind the header; where the buffer has fewer than `n` bytes there,
  -- it reads past its end.
  pub parse_internal-print_body :
      (value : Bytes) (n : ℕ)
      → find content_length (insert_all m.fields []) ≡ some value
      → atoi value ≡ ok (pos n)
      → 0 < n
      → parse_internal buf size (init r) ≡ (
          if leb n (length (d ∷ rest))
          then ok (completed m (take n (d ∷ rest)))
          else fault out_of_bounds)
  unfolding set_body_length
  parse_internal-print_body value n found number more =
      body_by n (λ p s place. rw (found, number) (ground arith))

  -- A request in print (as for `parse_internal-print`) with no Content-Length, of which the whole
  -- header and at least one byte more were received, in a buffer with a byte behind those. The body
  -- is one byte longer than what was received behind the header: it ends with a byte that was not
  -- received.
  pub parse_internal-print_unsized :
      find content_length (insert_all m.fields []) ≡ none
      → size < length buf
      → (parse_internal buf size (init r)
          ≡ ok (completed m (take (size - header_len + 1) (d ∷ rest))))
        × (length (take (size - header_len + 1) (d ∷ rest)) ≡ size - header_len + 1)
  unfolding set_body_length
  parse_internal-print_unsized none_given more =
      let n = size - header_len + 1 in
      let fits : leb n (length (d ∷ rest)) ≡ true = ground (arith, sizes, received) in
      (
        body_by n (λ p s place.
              let same : size - p ≡ n = omega (arith, place, received) in
              rw (none_given, sym same) (ground (arith, place, received)))
            ∙ rw fits refl,
        omega (arith, length-take n (d ∷ rest), sizes, received),
      )
