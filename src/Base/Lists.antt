-- ===== src/Base/Lists.antt =====
-- Lists measured and indexed by native numbers, under the library's names.
use Prim.Native.Nat.{ℕ, zero, suc, ◌+◌, ◌-◌, ◌≤◌, min}
use mathlib.Core.Path.{◌≡◌, ◌∙◌, refl, ap}
use mathlib.Core.List.{List, [], ◌∷◌, ◌++◌}
use native.Mathlib.Omega.{arith}

module _ {ℓ} {A : Type ℓ} where
  abbrev pub length : List A → ℕ
  length [] = 0
  length (x ∷ xs) = suc (length xs)

  abbrev pub take : ℕ → List A → List A
  take zero xs = []
  take (suc n) [] = []
  take (suc n) (x ∷ xs) = x ∷ take n xs

  abbrev pub drop : ℕ → List A → List A
  drop zero xs = xs
  drop (suc n) [] = []
  drop (suc n) (x ∷ xs) = drop n xs

  abbrev pub replicate : ℕ → A → List A
  replicate zero a = []
  replicate (suc n) a = a ∷ replicate n a

module _ {ℓ} {A : Type ℓ} where
  pub length-append : (xs ys : List A) → length (xs ++ ys) ≡ length xs + length ys
  length-append [] ys = omega arith
  length-append (x ∷ xs) ys = omega (arith, length-append xs ys)

  pub length-take : (n : ℕ) (xs : List A) → length (take n xs) ≡ min n (length xs)
  length-take zero xs = omega arith
  length-take (suc n) [] = omega arith
  length-take (suc n) (x ∷ xs) = omega (arith, length-take n xs)

  pub length-drop : (n : ℕ) (xs : List A) → length (drop n xs) ≡ length xs - n
  length-drop zero xs = omega arith
  length-drop (suc n) [] = omega arith
  length-drop (suc n) (x ∷ xs) = omega (arith, length-drop n xs)

  pub length-replicate : (n : ℕ) (a : A) → length (replicate n a) ≡ n
  length-replicate zero a = refl
  length-replicate (suc n) a = ap suc (length-replicate n a)

-- The array `xs` with the entries from `i` on overwritten by `ys`; what falls outside is dropped.
abbrev pub splice {ℓ} : {A : Type ℓ} → List A → ℕ → List A → List A
splice [] i ys = []
splice (x ∷ xs) (suc i) ys = x ∷ splice xs i ys
splice (x ∷ xs) zero [] = x ∷ xs
splice (x ∷ xs) zero (y ∷ ys) = y ∷ splice xs zero ys

suc-add : (i n : ℕ) → suc i + n ≡ suc (i + n)
suc-add i n = omega arith

zero-add : (n : ℕ) → 0 + n ≡ n
zero-add n = omega arith

module _ {ℓ} {A : Type ℓ} where
  pub length-splice : (xs : List A) (i : ℕ) (ys : List A) → length (splice xs i ys) ≡ length xs
  length-splice [] i ys = refl
  length-splice (x ∷ xs) (suc i) ys = ap suc (length-splice xs i ys)
  length-splice (x ∷ xs) zero [] = refl
  length-splice (x ∷ xs) zero (y ∷ ys) = ap suc (length-splice xs zero ys)

  -- what stands in front of the entries written stays
  pub take-splice : (xs : List A) (i : ℕ) (ys : List A) → take i (splice xs i ys) ≡ take i xs
  take-splice [] zero ys = refl
  take-splice [] (suc i) ys = refl
  take-splice (x ∷ xs) (suc i) ys = ap (◌∷◌ x) (take-splice xs i ys)
  take-splice (x ∷ xs) zero [] = refl
  take-splice (x ∷ xs) zero (y ∷ ys) = refl

  -- and the entries written follow it
  pub take-splice-append :
      (xs : List A) (i : ℕ) (ys zs : List A)
      → i + length ys ≤ length xs
      → take (i + length ys) (splice xs i (ys ++ zs)) ≡ take i xs ++ ys
  take-splice-append [] zero [] zs h = refl
  take-splice-append [] zero (y ∷ ys) zs h = absurd (omega arith)
  take-splice-append [] (suc i) ys zs h = absurd (omega arith)
  take-splice-append (x ∷ xs) (suc i) ys zs h =
      rw (suc-add i (length ys)) (ap (◌∷◌ x) (take-splice-append xs i ys zs (omega arith)))
  take-splice-append (x ∷ xs) zero [] zs h = refl
  take-splice-append (x ∷ xs) zero (y ∷ ys) zs h =
      rw (zero-add (suc (length ys)))
        (ap (◌∷◌ y) (rw (zero-add (length ys)) at (take-splice-append xs zero ys zs (omega arith))))

  pub take-append : (xs ys : List A) → take (length xs) (xs ++ ys) ≡ xs
  take-append [] ys = refl
  take-append (x ∷ xs) ys = ap (◌∷◌ x) (take-append xs ys)

  pub take-all : (n : ℕ) (xs : List A) → length xs ≤ n → take n xs ≡ xs
  take-all zero [] h = refl
  take-all zero (x ∷ xs) h = absurd (omega arith)
  take-all (suc n) [] h = refl
  take-all (suc n) (x ∷ xs) h = ap (◌∷◌ x) (take-all n xs (omega arith))

module _ {ℓ} {A : Type ℓ} where
  pub take-append-more :
      (n : ℕ) (xs ys : List A) → length xs ≤ n → take n (xs ++ ys) ≡ xs ++ take (n - length xs) ys
  take-append-more n [] ys h = let e : n - 0 ≡ n = omega arith in rw e
  take-append-more (suc n) (x ∷ xs) ys h =
      let e : suc n - suc (length xs) ≡ n - length xs = omega arith in
      rw e (ap (◌∷◌ x) (take-append-more n xs ys (omega arith)))
  take-append-more zero (x ∷ xs) ys h = absurd (omega arith)

  take-nil : (n : ℕ) → take {A = A} n [] ≡ []
  take-nil zero = refl
  take-nil (suc n) = refl

  pub take-append-take : (k n : ℕ) (xs : List A) → take k xs ++ take n (drop k xs) ≡ take (k + n) xs
  take-append-take zero n xs = rw (zero-add n)
  take-append-take (suc k) n [] = rw suc-add (take-nil n)
  take-append-take (suc k) n (x ∷ xs) = rw (suc-add k n) (ap (◌∷◌ x) (take-append-take k n xs))

  drop-nil : (n : ℕ) → drop {A = A} n [] ≡ []
  drop-nil zero = refl
  drop-nil (suc n) = refl

  pub drop-drop : (n k : ℕ) (xs : List A) → drop (n + k) xs ≡ drop k (drop n xs)
  drop-drop zero k xs = rw (zero-add k)
  drop-drop (suc n) k [] = rw (suc-add n k, drop-nil k)
  drop-drop (suc n) k (x ∷ xs) = rw (suc-add n k) (drop-drop n k xs)

  pub drop-append : (xs ys : List A) → drop (length xs) (xs ++ ys) ≡ ys
  drop-append [] ys = refl
  drop-append (x ∷ xs) ys = drop-append xs ys

  pub append_assoc : (xs ys zs : List A) → (xs ++ ys) ++ zs ≡ xs ++ (ys ++ zs)
  append_assoc [] ys zs = refl
  append_assoc (x ∷ xs) ys zs = ap (◌∷◌ x) (append_assoc xs ys zs)

  pub splice-append :
      (xs ys zs : List A) (i : ℕ) → length xs ≡ i → splice (xs ++ ys) i zs ≡ xs ++ splice ys 0 zs
  splice-append [] ys zs zero h = refl
  splice-append [] ys zs (suc i) h = absurd (omega arith)
  splice-append (x ∷ xs) ys zs zero h = absurd (omega arith)
  splice-append (x ∷ xs) ys zs (suc i) h = ap (◌∷◌ x) (splice-append xs ys zs i (omega arith))

  pub splice-whole : (xs ys : List A) → length xs ≡ length ys → splice xs 0 ys ≡ ys
  splice-whole [] [] h = refl
  splice-whole [] (y ∷ ys) h = absurd (omega arith)
  splice-whole (x ∷ xs) [] h = absurd (omega arith)
  splice-whole (x ∷ xs) (y ∷ ys) h = ap (◌∷◌ y) (splice-whole xs ys (omega arith))

  pub append-nil : (xs : List A) → xs ++ [] ≡ xs
  append-nil [] = refl
  append-nil (x ∷ xs) = ap (◌∷◌ x) (append-nil xs)

  pub take-splice-behind :
      (xs : List A) (i : ℕ) (ys : List A)
      → i + length ys ≤ length xs
      → take (i + length ys) (splice xs i ys) ≡ take i xs ++ ys
  take-splice-behind xs i ys h = rw (append-nil ys) at (take-splice-append xs i ys [] h)

  pub drop-tail : (n : ℕ) (x : A) (xs rest : List A) → drop n xs ≡ x ∷ rest → drop (n + 1) xs ≡ rest
  drop-tail n x xs rest e = drop-drop n 1 xs ∙ ap (λ (o : List A). drop 1 o) e
