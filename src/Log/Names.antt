-- ===== src/Log/Names.antt =====
-- The names of the log files: InitLogPath and the calls of sprintf in DecisFile (log/log.cpp).
use wslyh.Base.{
  Bool, Bool-cases, Bytes, Outcome, [], arith, c_string, codes, decimal, digits_onto, false, fault,
  if◌then◌else◌, inl, inr, length, length-append, length-replicate, ltb, ok, out_of_bounds, padded,
  pos, refl, replicate, suc, true, zero, ℕ, ℤ, ◌%◌, ◌&&◌, ◌++◌, ◌+◌, ◌-◌, ◌/◌, ◌<◌, ◌==◌, ◌>>=◌,
  ◌∷◌, ◌≡◌, ◌≢◌, ◌≤◌,
}
use wslyh.Log.Level.{init_level}

abbrev pub max_prog_name_len : ℕ
max_prog_name_len = 128

abbrev pub max_log_dir_len : ℕ
max_log_dir_len = 512

-- the array that the path is printed into
abbrev pub path_len : ℕ
path_len = 1024

-- the bytes of an array after strncpy of a text
abbrev pub strncpy : ℕ → Bytes → Bytes
strncpy zero text = []
strncpy (suc n) [] = 0 ∷ strncpy n []
strncpy (suc n) (c ∷ cs) = c ∷ strncpy n cs

-- the members that InitLogPath sets
pub record LogPath : Type 0 where
  pub log_dir : Bytes
  pub prog_name : Bytes
  pub env : Bool
  pub level : ℤ

-- `accessible` is whether access finds the directory writable, after mkdir.
unfoldable pub init_log_path : Bool → Bytes → Bytes → ℤ → LogPath → LogPath
init_log_path accessible dir name level s = record {
  log_dir = strncpy max_log_dir_len dir;
  prog_name = strncpy max_prog_name_len name;
  env = if accessible then true else s.env;
  level = init_level level s.level;
}

-- what sprintf makes of the two names and the numbers; number 0 stands for none
abbrev pub path_text : Bytes → Bytes → ℕ → ℕ → ℕ → ℕ → ℕ → Bytes
path_text dir name year mon day pid number =
    dir
    ++ b'/'
      ∷ (name
          ++ b'.'
            ∷ (decimal (pos year)
                ++ (padded 2 mon
                    ++ (padded 2 day
                        ++ b'.'
                          ∷ (decimal (pos pid)
                              ++ (codes ".log"
                                  ++ (if number == 0 then [] else b'.' ∷ decimal (pos number))))))))

unfoldable pub log_path : LogPath → ℕ → ℕ → ℕ → ℕ → ℕ → Outcome Bytes
log_path s year mon day pid number = do
  dir ← c_string s.log_dir
  name ← c_string s.prog_name
  let text = path_text dir name year mon day pid number
  if ltb (length text) path_len then ok text else fault out_of_bounds

-- a text, as C has it
abbrev pub IsText : Bytes → Type 0
IsText [] = Unit
IsText (c ∷ cs) = (c ≢ 0) × IsText cs

c_string-short :
    (n : ℕ) (text : Bytes) → IsText text → length text < n → c_string (strncpy n text) ≡ ok text
unfolding c_string
c_string-short zero text t l = absurd (omega arith)
c_string-short (suc n) [] t l = refl
c_string-short (suc n) (c ∷ cs) t l =
    let z : (c == 0) ≡ false = ground (arith, t.0) in
    rw (z, c_string-short n cs t.1 (omega arith)) refl

c_string-long :
    (n : ℕ) (text : Bytes)
    → IsText text
    → n ≤ length text
    → c_string (strncpy n text) ≡ fault out_of_bounds
unfolding c_string
c_string-long zero text t l = refl
c_string-long (suc n) [] t l = absurd (omega arith)
c_string-long (suc n) (c ∷ cs) t l =
    let z : (c == 0) ≡ false = ground (arith, t.0) in
    rw (z, c_string-long n cs t.1 (omega arith)) refl

length-digits_onto : (k n : ℕ) (out : Bytes) → length (digits_onto k n out) ≤ k + 1 + length out
unfolding digits_onto
length-digits_onto zero n out = omega arith
length-digits_onto (suc k) n out =
    let more = length-digits_onto k (n / 10) ((b'0' + n % 10) ∷ out) in ground arith

length-decimal : (n : ℕ) → length (decimal (pos n)) ≤ 21
unfolding decimal
length-decimal n = length-digits_onto 20 n []

length-padded_two_any : (n : ℕ) → length (padded 2 n) ≤ 21
length-padded_two_any n =
    let digits = digits_onto 20 n [] in
    omega (
      arith,
      length-digits_onto 20 n [],
      length-append (replicate (2 - length digits) b'0') digits,
      length-replicate {A = ℕ} (2 - length digits) b'0',
    )

module _ (dir name : Bytes) (year mon day pid number : ℕ) where
  suffix_text : Bytes
  suffix_text = if number == 0 then [] else b'.' ∷ decimal (pos number)

  length-suffix_text : length suffix_text ≤ 22
  unfolding suffix_text
  length-suffix_text = elim (Bool-cases (number == 0)) [
    | inl z ↦ rw z (omega arith)
    | inr s ↦ rw s (let d = length-decimal number in omega (arith, d))
  ]

  length-path_text :
      length (path_text dir name year mon day pid number) ≤ length dir + length name + 120
  unfolding suffix_text
  length-path_text =
      let e = codes ".log" ++ suffix_text in
      let d = decimal (pos pid) ++ e in
      let c = padded 2 day ++ b'.' ∷ d in
      let b = padded 2 mon ++ c in
      let a = decimal (pos year) ++ b in
      let n = name ++ b'.' ∷ a in
      omega (
        arith,
        length-append dir (b'/' ∷ n),
        length-append name (b'.' ∷ a),
        length-append (decimal (pos year)) b,
        length-append (padded 2 mon) c,
        length-append (padded 2 day) (b'.' ∷ d),
        length-append (decimal (pos pid)) e,
        length-append (codes ".log") suffix_text,
        length-decimal year,
        length-padded_two_any mon,
        length-padded_two_any day,
        length-decimal pid,
        length-suffix_text,
      )

  module _ (accessible : Bool) (level : ℤ) (s : LogPath) (text_dir : IsText dir)
      (text_name : IsText name) where
    abbrev ready : LogPath
    ready = init_log_path accessible dir name level s

    -- After InitLogPath with a directory of less than 512 bytes and a name of less than 128, the path
    -- that DecisFile prints for a day and a number is made of all of both, and fits the array of 1024
    -- bytes. A longer directory or name is stored without its end, and sprintf reads behind its array.
    pub log_path-init : log_path ready year mon day pid number ≡ (
        if ltb (length dir) 512 && ltb (length name) 128
        then ok (path_text dir name year mon day pid number)
        else fault out_of_bounds)
    unfolding log_path init_log_path
    log_path-init = elim (Bool-cases (ltb (length dir) 512)) [
      | inl short ↦ elim (Bool-cases (ltb (length name) 128)) [
        | inl small ↦
            let fits : ltb (length (path_text dir name year mon day pid number)) 1024 ≡ true =
              let l = length-path_text in ground arith in
            rw
              (
                short,
                small,
                c_string-short 512 dir text_dir (ground arith),
                c_string-short 128 name text_name (ground arith),
                fits,
              )
              refl
        | inr large ↦
            rw
              (
                short,
                large,
                c_string-short 512 dir text_dir (ground arith),
                c_string-long 128 name text_name (ground arith),
              )
              refl
      ]
      | inr long ↦ rw (long, c_string-long 512 dir text_dir (ground arith)) refl
    ]
