-- ===== src/Request/Ending.antt =====
-- The blank line that ends the header of a request, when no byte behind it was received.
use wslyh.Base.{
  Bool, Bytes, Option, Outcome, [], ap, arith, false, fault, if◌then◌else◌, is_positive, none, ok,
  refl, some, sub_ℕ, true, ℕ, ℤ, ◌+◌, ◌<◌, ◌>>=◌, ◌∙◌, ◌∷◌, ◌≡◌,
}
use wslyh.Request.{DecodeState, Request, find}
use wslyh.Request.Chars.{atoi, cr, lf}
use wslyh.Request.Loop.{goes_on, is_final, scan_loop, step, step_in}
use wslyh.Request.Step.{Scan, content_length, goto, on_cr_lf, on_cr_lf_cr, set_body_length}
use wslyh.Request.Tokens.{at, goes_on_lem, scan_loop-step}

-- the state behind the header, by the value of its Content-Length field
abbrev pub end_state : Option Bytes → Outcome DecodeState
end_state none = ok DecodeState.body
end_state (some value) =
    atoi value >>= λ n. ok (if is_positive n then DecodeState.body else DecodeState.complete)

abbrev pub ended : ℕ → Request → DecodeState → Request
ended size r st = record r { next_pos = size; decode_state = st }

module _ (buf : Bytes) (size : ℕ) where
  scan_loop-received :
      (rest : Bytes) (s : Scan) → s.req.next_pos ≡ size → scan_loop buf size rest s ≡ ok s
  unfolding scan_loop goes_on
  scan_loop-received rest s h = elim rest as (λ l. scan_loop buf size l s ≡ ok s) [
    | [] ↦ ground arith
    | x ∷ xs ↦ ground arith
  ]

  settle :
      (rest : Bytes) (st : DecodeState) (s : Scan)
      → s.req.next_pos ≡ size
      → (scan_loop buf size rest (goto st s) >>= λ u. ok u.req) ≡ ok (ended size s.req st)
  settle rest st s h =
      rw (scan_loop-received rest (goto st s) h)
        (ap (λ n. ok (record s.req { next_pos = n; decode_state = st })) h)

  set_body_length-none :
      (p : ℕ) (s : Scan)
      → p < size
      → set_body_length p size none s
        ≡ ok (goto DecodeState.body (record s { body_length = sub_ℕ size p }))
  unfolding set_body_length
  set_body_length-none p s l = ground arith

  by_sign :
      (rest : Bytes) (s : Scan)
      → s.req.next_pos ≡ size
      → (n : ℤ) (b : Bool)
      → (scan_loop buf size rest (
            if b
            then goto DecodeState.body (record s { body_length = n })
            else goto DecodeState.complete (record s { body_length = n }))
          >>= λ u. ok u.req)
        ≡ ok (ended size s.req (if b then DecodeState.body else DecodeState.complete))
  by_sign rest s h n true = settle rest DecodeState.body (record s { body_length = n }) h
  by_sign rest s h n false = settle rest DecodeState.complete (record s { body_length = n }) h

  set_body_length-ended :
      (rest : Bytes) (p : ℕ) (value : Option Bytes) (s : Scan)
      → p < size
      → s.req.next_pos ≡ size
      → ((set_body_length p size value s >>= λ t. scan_loop buf size rest t) >>= λ u. ok u.req)
        ≡ (end_state value >>= λ st. ok (ended size s.req st))
  unfolding set_body_length
  set_body_length-ended rest p none s l h =
      rw (set_body_length-none p s l)
        (settle rest DecodeState.body (record s { body_length = sub_ℕ size p }) h)
  set_body_length-ended rest p (some value) s l h = by_number (atoi value)
    where
      by_number :
          (o : Outcome ℤ)
          → (((o >>= λ n. ok (
                  if is_positive n
                  then goto DecodeState.body (record s { body_length = n })
                  else goto DecodeState.complete (record s { body_length = n })))
                >>= λ t. scan_loop buf size rest t)
              >>= λ u. ok u.req)
            ≡ ((o >>= λ n. ok (if is_positive n then DecodeState.body else DecodeState.complete))
                >>= λ st. ok (ended size s.req st))
      by_number (ok n) = by_sign rest s h n (is_positive n)
      by_number (fault f) = refl

  pub step-cr :
      (s : Scan)
      → s.req.decode_state ≡ DecodeState.cr_lf
      → step buf size cr s ≡ ok (at (s.req.next_pos + 1) (goto DecodeState.cr_lf_cr s))
  unfolding step step_in on_cr_lf
  step-cr s h = ground arith

  -- the step at the line feed, in the state behind the carriage return
  pub step-lf :
      (s : Scan)
      → step buf size lf (at (s.req.next_pos + 1) (goto DecodeState.cr_lf_cr s))
        ≡ set_body_length
            (s.req.next_pos + 1)
            size
            (find content_length s.req.headers)
            (at (s.req.next_pos + 1 + 1) (goto DecodeState.cr_lf_cr s))
  unfolding step step_in on_cr_lf_cr
  step-lf s = refl

  pub scan_loop-end :
      (rest : Bytes) (s : Scan)
      → s.req.decode_state ≡ DecodeState.cr_lf
      → s.req.next_pos + 2 ≡ size
      → (scan_loop buf size (cr ∷ lf ∷ rest) s >>= λ t. ok t.req)
        ≡ (end_state (find content_length s.req.headers) >>= λ st. ok (ended size s.req st))
  unfolding scan_loop is_final
  scan_loop-end rest s e h =
      let s' = at (s.req.next_pos + 1) (goto DecodeState.cr_lf_cr s) in
      ap (λ o. o >>= λ t. ok t.req)
        (scan_loop-step buf size cr (lf ∷ rest) s s' (ap is_final e) (omega arith) (step-cr s e))
      ∙ rw (goes_on_lem buf size DecodeState.cr_lf_cr s'.req refl refl (omega arith), step-lf s)
          (set_body_length-ended rest (s.req.next_pos + 1) (find content_length s.req.headers)
            (at (s.req.next_pos + 1 + 1) (goto DecodeState.cr_lf_cr s)) (omega arith) (omega arith))
