-- ===== src/Base/Printing.antt =====
-- What printf prints of numbers, and snprintf into an array.
use Prim.Native.Nat.{ℕ, zero, suc, ◌+◌, ◌-◌, ◌/◌, ◌%◌, ◌≤◌, ◌<◌}
use mathlib.Core.Path.{◌≡◌, refl}
use mathlib.Core.Logic.{inl, inr}
use mathlib.Core.Bool.{Bool, true, false}
use mathlib.Core.List.{[], ◌∷◌, ◌++◌}
use native.Mathlib.Omega.{arith}
use wslyh.Base.Outcomes.{Outcome, fault, ok, out_of_bounds, ◌>>=◌}
use wslyh.Base.Tests.{Bool-cases, Bytes, if◌then◌else◌, ltb, negsuc, pos, ℤ, ◌==◌}
use wslyh.Base.Lists.{
  length, length-append, length-replicate, length-splice, replicate, splice, take, take-all,
  take-splice, take-splice-append,
}

-- Decimal digits in front of `out`, at most one more than the fuel.
unfoldable pub digits_onto : ℕ → ℕ → Bytes → Bytes
digits_onto zero n out = (b'0' + n % 10) ∷ out
digits_onto (suc k) n out =
    let more = digits_onto k (n / 10) ((b'0' + n % 10) ∷ out) in
    if ltb n 10 then (b'0' + n % 10) ∷ out else more

-- what `%d` prints
unfoldable pub decimal : ℤ → Bytes
unfolding digits_onto
decimal (pos n) = digits_onto 20 n []
decimal (negsuc n) = b'-' ∷ digits_onto 20 (n + 1) []

-- what `%0wd` prints of a number that is not negative
abbrev pub padded : ℕ → ℕ → Bytes
padded w n = let text = digits_onto 20 n [] in replicate (w - length text) b'0' ++ text

-- vsnprintf(buf + i, n, ...) writes at most n - 1 bytes of the text and a NUL.
abbrev pub print_at : Bytes → ℕ → ℕ → Bytes → Bytes
print_at buf i n text = if n == 0 then buf else splice buf i (take (n - 1) text ++ 0 ∷ [])

module _ (buf : Bytes) (i n : ℕ) (text : Bytes) where
  pub length-print_at : length (print_at buf i n text) ≡ length buf
  length-print_at = elim (Bool-cases (n == 0)) [
    | inl none_left ↦ rw none_left
    | inr room ↦ rw room (length-splice buf i _)
  ]

  pub take-print_at : take i (print_at buf i n text) ≡ take i buf
  take-print_at = elim (Bool-cases (n == 0)) [
    | inl none_left ↦ rw none_left
    | inr room ↦ rw room (take-splice buf i _)
  ]

  pub take-print_at_all :
      length text < n
      → i + n ≤ length buf
      → take (i + length text) (print_at buf i n text) ≡ take i buf ++ text
  take-print_at_all l m =
      let room : (n == 0) ≡ false = ground arith in
      rw (room, take-all (n - 1) text (omega arith))
        (take-splice-append buf i text (0 ∷ []) (omega arith))

-- what `%s` prints of an array
unfoldable pub c_string : Bytes → Outcome Bytes
c_string [] = fault out_of_bounds
c_string (c ∷ cs) =
    let rest = c_string cs in if c == 0 then ok [] else rest >>= λ text. ok (c ∷ text)

length-digits_last :
    (k n : ℕ) (out : Bytes) → n < 10 → length (digits_onto k n out) ≡ suc (length out)
unfolding digits_onto
length-digits_last zero n out h = refl
length-digits_last (suc k) n out h = ground arith

digits_onto-more :
    (k n : ℕ) (out : Bytes)
    → 10 ≤ n
    → digits_onto (suc k) n out ≡ digits_onto k (n / 10) ((b'0' + n % 10) ∷ out)
unfolding digits_onto
digits_onto-more k n out h = ground arith

length-padded : (w n : ℕ) → length (digits_onto 20 n []) ≤ w → length (padded w n) ≡ w
length-padded w n h = omega (
  arith,
  length-append (replicate (w - length (digits_onto 20 n [])) b'0') (digits_onto 20 n []),
  length-replicate {A = ℕ} (w - length (digits_onto 20 n [])) b'0',
)

pub length-padded_two : (n : ℕ) → n < 100 → length (padded 2 n) ≡ 2
length-padded_two n h = length-padded 2 n (by_size (ltb n 10) refl)
  where
    by_size : (b : Bool) → ltb n 10 ≡ b → length (digits_onto 20 n []) ≤ 2
    by_size false e =
        let g : 10 ≤ n = ground arith in
        rw (digits_onto-more 19 n [] g)
          (omega (arith, length-digits_last 19 (n / 10) ((b'0' + n % 10) ∷ []) (omega arith)))
    by_size true e = let g : n < 10 = ground arith in omega (arith, length-digits_last 20 n [] g)

pub length-padded_four : (n : ℕ) → 1000 ≤ n → n < 10000 → length (padded 4 n) ≡ 4
length-padded_four n h l =
    let a = (b'0' + n % 10) ∷ [] in
    let b = (b'0' + n / 10 % 10) ∷ a in
    let c = (b'0' + n / 10 / 10 % 10) ∷ b in
    length-padded 4 n (
      rw
        (
          digits_onto-more 19 n [] (omega arith),
          digits_onto-more 18 (n / 10) a (omega arith),
          digits_onto-more 17 (n / 10 / 10) b (omega arith),
        )
        (omega (arith, length-digits_last 17 (n / 10 / 10 / 10) c (omega arith))))
