-- ===== src/Http/Composed.antt =====
-- What the lines added to a response make of the write buffer.
use wslyh.Base.{
  Bool, Bool-cases, Bytes, arith, false, if◌then◌else◌, inl, inr, leb, length, length-print_at, ltb,
  refl, take, take-print_at, take-print_at_all, true, ◌++◌, ◌+◌, ◌-◌, ◌<◌, ◌∙◌, ◌≡◌, ◌≤◌,
}
use wslyh.Http.{Http, max_buff_size}
use wslyh.Http.Lines.{add_line}

-- The response composed so far.
abbrev pub composed : Http → Bytes
composed h = take h.write_idx h.write_data

-- The connection but for its write buffer.
abbrev pub SameRest : Http → Http → Type 0
SameRest g h = g ≡ record h { write_data = g.write_data; write_idx = g.write_idx }

-- The buffer has its size.
abbrev pub IsSized : Http → Type 0
IsSized h = length h.write_data ≡ max_buff_size

-- What AddLine of `text` does: with room for the text and a NUL it appends the text, else it refuses
-- and what was composed stays.
pub record Lined (text : Bytes) (h : Http) (r : Http × Bool) : Type 0 where
  pub sized : IsSized r.0
  pub rest : SameRest r.0 h
  pub fits :
      h.write_idx + length text + 1 < max_buff_size
      → (r.1 ≡ true)
        × (composed r.0 ≡ composed h ++ text)
        × (r.0.write_idx ≡ h.write_idx + length text)
  pub refused :
      max_buff_size ≤ h.write_idx + length text + 1
      → (r.1 ≡ false) × (composed r.0 ≡ composed h) × (r.0.write_idx ≡ h.write_idx)

pub add_line-Lined : (text : Bytes) (h : Http) → IsSized h → Lined text h (add_line text h)
unfolding add_line
add_line-Lined text h s = elim (Bool-cases (leb max_buff_size h.write_idx)) [
  | inl full ↦ rw full (record {
    sized = s;
    rest = refl;
    fits = λ l. absurd (ground arith);
    refused = λ l. (refl, refl, refl);
  })
  | inr some_room ↦
      rw some_room (elim (Bool-cases (leb (max_buff_size - 1 - h.write_idx) (length text))) [
        | inl long ↦ rw long (record {
          sized = length-print_at h.write_data h.write_idx _ text ∙ s;
          rest = refl;
          fits = λ l. absurd (ground arith);
          refused = λ l. (refl, take-print_at h.write_data h.write_idx _ text, refl);
        })
        | inr short ↦ rw short (record {
          sized = length-print_at h.write_data h.write_idx _ text ∙ s;
          rest = refl;
          fits = λ l. (
            refl,
            take-print_at_all h.write_data h.write_idx _ text (ground arith) (ground arith),
            refl,
          );
          refused = λ l. absurd (ground arith);
        })
      ])
]

-- What AddLine of `text` makes of a write buffer of the right size: it keeps that size and changes
-- nothing else of the connection; where the text and a NUL fit behind the response it appends the text
-- and returns true, and else it returns false and leaves the response as it was.
pub add_line_lem :
    (text : Bytes) (h : Http)
    → IsSized h
    → ((add_line text h).1 ≡ ltb (h.write_idx + length text + 1) max_buff_size)
      × (composed (add_line text h).0 ≡ (
          if ltb (h.write_idx + length text + 1) max_buff_size
          then composed h ++ text
          else composed h))
      × IsSized (add_line text h).0
      × SameRest (add_line text h).0 h
add_line_lem text h s =
    let l = add_line-Lined text h s in
    elim (Bool-cases (ltb (h.write_idx + length text + 1) max_buff_size)) [
      | inl room ↦ let f = l.fits (ground arith) in rw room (f.0, f.1, l.sized, l.rest)
      | inr full ↦ let f = l.refused (ground arith) in rw full (f.0, f.1, l.sized, l.rest)
    ]
