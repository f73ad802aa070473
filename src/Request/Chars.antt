-- ===== src/Request/Chars.antt =====
-- The <ctype.h> tests of the "C" locale and atoi, as http/http.cpp calls them on the bytes of a
-- request.
use wslyh.Base.{
  Bool, Bool-cases, Bytes, Outcome, [], arith, false, fault, if◌then◌else◌, inl, inr, leb, ltb,
  negsuc, no_int, ok, pos, refl, true, ℕ, ℤ, ◌&&◌, ◌*◌, ◌+◌, ◌-◌, ◌==◌, ◌^◌, ◌||◌, ◌∷◌, ◌≡◌, ◌⊎◌,
}

abbrev pub cr : ℕ
cr = b'\r'

abbrev pub lf : ℕ
lf = b'\n'

unfoldable pub isblank : ℕ → Bool
isblank c = c == b' ' || c == b'\t'

unfoldable pub isupper : ℕ → Bool
isupper c = leb b'A' c && leb c b'Z'

unfoldable pub isdigit : ℕ → Bool
isdigit c = leb b'0' c && leb c b'9'

isspace : ℕ → Bool
isspace c = c == b' ' || (leb 9 c && leb c 13)

skip_space : Bytes → Bytes
skip_space [] = []
skip_space (c ∷ cs) = if isspace c then skip_space cs else c ∷ cs

-- the value of the digits in front
digits_value : ℕ → Bytes → ℕ
digits_value n [] = n
digits_value n (c ∷ cs) =
    let rest = digits_value (n * 10 + (c - b'0')) cs in if isdigit c then rest else n

-- A value that is no int is undefined.
int_of : Bool → ℕ → Outcome ℤ
int_of negative n =
    if negative
    then (if n == 0
        then ok (pos 0)
        else if leb n (2 ^ 31)
        then ok (negsuc (n - 1))
        else fault no_int)
    else (if ltb n (2 ^ 31) then ok (pos n) else fault no_int)

signed_value : Bytes → Outcome ℤ
signed_value [] = ok (pos 0)
signed_value (c ∷ cs) =
    if c == b'-'
    then int_of true (digits_value 0 cs)
    else if c == b'+'
    then int_of false (digits_value 0 cs)
    else int_of false (digits_value 0 (c ∷ cs))

unfoldable pub atoi : Bytes → Outcome ℤ
unfolding skip_space isspace signed_value int_of digits_value isdigit
atoi s = signed_value (skip_space s)

int_of_cases : (b : Bool) (n : ℕ) → ((v : ℤ) × (int_of b n ≡ ok v)) ⊎ (int_of b n ≡ fault no_int)
unfolding int_of
int_of_cases true n = elim (Bool-cases (leb n (2 ^ 31))) [
  | inl fits ↦ inl (if n == 0 then pos 0 else negsuc (n - 1), ground arith)
  | inr large ↦ inr (ground arith)
]
int_of_cases false n = elim (Bool-cases (ltb n (2 ^ 31))) [
  | inl fits ↦ inl (pos n, ground arith)
  | inr large ↦ inr (ground arith)
]

signed_value_cases :
    (s : Bytes) → ((v : ℤ) × (signed_value s ≡ ok v)) ⊎ (signed_value s ≡ fault no_int)
unfolding signed_value
signed_value_cases [] = inl (pos 0, refl)
signed_value_cases (c ∷ cs) = elim (Bool-cases (c == b'-')) [
  | inl minus ↦ rw minus (int_of_cases true (digits_value 0 cs))
  | inr other ↦ elim (Bool-cases (c == b'+')) [
    | inl plus ↦ rw (other, plus) (int_of_cases false (digits_value 0 cs))
    | inr digit ↦ rw (other, digit) (int_of_cases false (digits_value 0 (c ∷ cs)))
  ]
]

-- atoi gives an int, or is asked for a number that is none
pub atoi_cases : (s : Bytes) → ((v : ℤ) × (atoi s ≡ ok v)) ⊎ (atoi s ≡ fault no_int)
unfolding atoi
atoi_cases s = signed_value_cases (skip_space s)
