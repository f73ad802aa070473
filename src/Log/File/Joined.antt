-- ===== src/Log/File/Joined.antt =====
-- The texts of the files of one day, one behind the other.
use wslyh.Base.{
  Bytes, Option, [], ap, append-nil, append_assoc, arith, refl, suc, sym, zero, ℕ, ◌++◌, ◌+◌, ◌<◌,
  ◌∙◌, ◌≡◌,
}
use wslyh.Log.File.{Files, contents_of, put}
use wslyh.Log.File.Rotate.{There, name, put-other}

module _ (year mon day : ℕ) where
  abbrev pub at : Files → ℕ → Bytes
  at files i = contents_of (files (name year mon day i))

  -- the `n` files from number `lo` on, the one with the highest number first
  abbrev pub joined : Files → ℕ → ℕ → Bytes
  joined files lo zero = []
  joined files lo (suc n) = at files (lo + n) ++ joined files lo n

  pub joined-shifted :
      (f g : Files) (lo n : ℕ)
      → ((i : ℕ) → i < n → at g (lo + 1 + i) ≡ at f (lo + i))
      → joined g (lo + 1) n ≡ joined f lo n
  joined-shifted f g lo zero same = refl
  joined-shifted f g lo (suc n) same =
      let first = same n (omega arith) in
      let rest = joined-shifted f g lo n (λ i l. same i (omega arith)) in
      ap (λ t. t ++ joined g (lo + 1) n) first ∙ ap (λ t. at f (lo + n) ++ t) rest

  joined-same :
      (f g : Files) (lo n : ℕ)
      → ((i : ℕ) → i < n → at g (lo + i) ≡ at f (lo + i))
      → joined g lo n ≡ joined f lo n
  joined-same f g lo zero same = refl
  joined-same f g lo (suc n) same =
      let first = same n (omega arith) in
      let rest = joined-same f g lo n (λ i l. same i (omega arith)) in
      ap (λ t. t ++ joined g lo n) first ∙ ap (λ t. at f (lo + n) ++ t) rest

  -- the last of the files is that with number `lo`
  pub joined-last : (f : Files) (lo n : ℕ) → joined f lo (suc n) ≡ joined f (lo + 1) n ++ at f lo
  joined-last f lo zero =
      let e : lo + 0 ≡ lo = omega arith in append-nil (at f (lo + 0)) ∙ ap (at f) e
  joined-last f lo (suc n) =
      let e : lo + suc n ≡ lo + 1 + n = omega arith in
      ap (λ t. at f (lo + suc n) ++ t) (joined-last f lo n)
      ∙ sym (append_assoc (at f (lo + suc n)) (joined f (lo + 1) n) (at f lo))
      ∙ ap (λ k. (at f k ++ joined f (lo + 1) n) ++ at f lo) e

  -- a new text of the file with number 0 leaves the others
  pub at-put :
      (f : Files) (v : Option Bytes) (i : ℕ)
      → at (put f (name year mon day 0) v) (1 + i) ≡ at f (1 + i)
  at-put f v i =
      ap contents_of (put-other year mon day f 0 (1 + i) v (λ q. absurd (omega (arith, q))))

  pub joined-put :
      (f : Files) (v : Option Bytes) (n : ℕ)
      → joined (put f (name year mon day 0) v) 1 n ≡ joined f 1 n
  joined-put f v n = joined-same f (put f (name year mon day 0) v) 1 n (λ i l. at-put f v i)

  pub There-put :
      (f : Files) (v : Option Bytes) (n : ℕ)
      → There year mon day n f
      → There year mon day n (put f (name year mon day 0) v)
  There-put f v n t i l =
      let (c, e) = t i l in
      (c, put-other year mon day f 0 (i + 1) v (λ q. absurd (omega (arith, q))) ∙ e)
