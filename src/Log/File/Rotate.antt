-- ===== src/Log/File/Rotate.antt =====
-- What DecisFile does to the files.
use wslyh.Base.{
  Bool, Bool-cases, Bytes, Option, [], ap, arith, false, if◌then◌else◌, inl, inr, leb, none, refl,
  some, suc, sym, true, zero, ℕ, ◌+◌, ◌-◌, ◌<◌, ◌==◌, ◌∙◌, ◌≡◌, ◌≢◌, ◌≤◌, ◌⊎◌,
}
use wslyh.Log.File.{
  Files, LogFile, Name, decis_file, numbered, one_log_file_limit, open_log, put, rename,
  rename_loop, rotate, same_name, with_env,
}

pub put-same : (files : Files) (n : Name) (v : Option Bytes) → put files n v n ≡ v
unfolding put same_name
put-same files n v = ground arith

rename-found :
    (files : Files) (old new : Name) (c : Bytes)
    → files old ≡ some c
    → rename old new files ≡ put (put files old none) new (some c)
unfolding rename
rename-found files old new c e =
    ap (λ o. elim o [ none ↦ files | some contents ↦ put (put files old none) new (some contents) ])
      e

module _ (year mon day : ℕ) where
  abbrev pub name : ℕ → Name
  name i = numbered year mon day i

  pub put-other :
      (files : Files) (i j : ℕ) (v : Option Bytes)
      → i ≢ j
      → put files (name i) v (name j) ≡ files (name j)
  unfolding put same_name
  put-other files i j v h = ground arith

  rename-to :
      (files : Files) (i j : ℕ) (c : Bytes)
      → files (name i) ≡ some c
      → rename (name i) (name j) files (name j) ≡ some c
  rename-to files i j c e =
      ap (λ (f : Files). f (name j)) (rename-found files (name i) (name j) c e)
      ∙ (put-same (put files (name i) none) (name j) (some c))

  rename-other :
      (files : Files) (i j k : ℕ) (c : Bytes)
      → files (name i) ≡ some c
      → i ≢ k
      → j ≢ k
      → rename (name i) (name j) files (name k) ≡ files (name k)
  unfolding rename
  rename-other files i j k c e p q =
      ap (λ (f : Files). f (name k)) (rename-found files (name i) (name j) c e)
      ∙ (put-other (put files (name i) none) j k (some c) q ∙ put-other files i k none p)

  -- the files with the numbers from 1 to `n` are there
  abbrev pub There : ℕ → Files → Type 0
  There n files = (i : ℕ) → i < n → (c : Bytes) × (files (name (i + 1)) ≡ some c)

  There-renamed :
      (k : ℕ) (files : Files)
      → There (suc k) files
      → There k (rename (name (k + 1)) (name (k + 1 + 1)) files)
  There-renamed k files t i l =
      let (c, e) = t k (omega arith) in
      let (d, f) = t i (omega arith) in
      (
        d,
        rename-other files (k + 1) (k + 1 + 1) (i + 1) c e (λ q. absurd (omega (arith, q)))
              (λ q. absurd (omega (arith, q)))
            ∙ f,
      )

  loop-kept :
      (n : ℕ) (files : Files)
      → There n files
      → (j : ℕ) → ((j ≡ 0) ⊎ (n + 1 < j))
      → rename_loop year mon day n files (name j) ≡ files (name j)
  unfolding rename_loop
  loop-kept zero files t j h = refl
  loop-kept (suc k) files t j h =
      let (c, e) = t k (omega arith) in
      loop-kept k (rename (name (k + 1)) (name (k + 1 + 1)) files) (There-renamed k files t) j
        (ground arith)
      ∙ rename-other files (k + 1) (k + 1 + 1) j c e (λ q. absurd (ground arith))
          (λ q. absurd (ground arith))

  loop-moved :
      (n : ℕ) (files : Files)
      → There n files
      → (i : ℕ) → i < n
      → rename_loop year mon day n files (name (i + 1 + 1)) ≡ files (name (i + 1))
  unfolding rename_loop
  loop-moved zero files t i l = absurd (omega arith)
  loop-moved (suc k) files t i l =
      let files' = rename (name (k + 1)) (name (k + 1 + 1)) files in
      let (c, f) = t k (omega arith) in
      elim (Bool-cases (i == k)) [
        | inl e ↦
            let same : i ≡ k = ground arith in
            loop-kept k files' (There-renamed k files t) (i + 1 + 1) (inr (omega arith))
            ∙ ap (λ m. files' (name (m + 1 + 1))) same
            ∙ rename-to files (k + 1) (k + 1 + 1) c f
            ∙ sym f
            ∙ ap (λ m. files (name (m + 1))) (sym same)
        | inr e ↦
            let apart : i ≢ k = ground arith in
            loop-moved k files' (There-renamed k files t) i (omega arith)
            ∙ rename-other files (k + 1) (k + 1 + 1) (i + 1) c f
                (λ q. absurd (omega (arith, q, apart))) (λ q. absurd (omega (arith, q)))
      ]

  if_open :
      (opens : Bool) (s : LogFile) (i : ℕ)
      → (open_log opens (name 0) s).files (name (i + 1)) ≡ s.files (name (i + 1))
  if_open false s i = refl
  if_open true s i = put-other s.files 0 (i + 1) (some []) (λ q. absurd (omega (arith, q)))

  module _ (cnt : ℕ) (files : Files)
      (t : (i : ℕ) → i < suc cnt → (c : Bytes) × (files (name i) ≡ some c)) where
    abbrev renamed : Files
    renamed = rename (name 0) (name 1) (rename_loop year mon day cnt files)

    above : There cnt files
    above i l = t (i + 1) (omega arith)

    first_kept :
        (c : Bytes) → files (name 0) ≡ some c → rename_loop year mon day cnt files (name 0) ≡ some c
    first_kept c e = loop-kept cnt files above 0 (inl refl) ∙ e

    pub all_moved : (i : ℕ) → i < suc cnt → renamed (name (i + 1)) ≡ files (name i)
    all_moved zero l =
        let (c, e) = t 0 l in
        rename-to (rename_loop year mon day cnt files) 0 1 c (first_kept c e) ∙ sym e
    all_moved (suc i) l =
        let (c, e) = t 0 (omega arith) in
        let two : suc i + 1 ≡ i + 1 + 1 = omega arith in
        let one : i + 1 ≡ suc i = omega arith in
        ap (λ m. renamed (name m)) two
        ∙ rename-other (rename_loop year mon day cnt files) 0 1 (i + 1 + 1) c (first_kept c e)
            (λ q. absurd (omega (arith, q))) (λ q. absurd (omega (arith, q)))
        ∙ loop-moved cnt files above i (omega arith)
        ∙ ap (λ m. files (name m)) one

  pub decis_file-too_long :
      (opens : Bool) (s : LogFile) (position : ℕ)
      → s.env ≡ true
      → s.fp ≡ some position
      → s.day ≡ day
      → one_log_file_limit ≤ position
      → decis_file year mon day opens s ≡ (rotate year mon day opens s, opens)
  unfolding decis_file
  decis_file-too_long opens s position env opened same_day long =
      let d : (s.day == day) ≡ true = ground arith in
      let l : leb one_log_file_limit position ≡ true = ground arith in
      ap
        (λ b.
          if b
          then with_env year mon day opens s s.fp
          else (record s { fp = if opens then some 0 else none }, opens))
        env
      ∙ ap (with_env year mon day opens s) opened
      ∙ rw (d, l) refl

  pub decis_file-other_day :
      (s : LogFile) (position : ℕ)
      → s.env ≡ true
      → s.fp ≡ some position
      → s.day ≢ day
      → decis_file year mon day true s ≡ (
        record s {
          files = put s.files (numbered s.year s.mon day 0) (some []);
          fp = some 0;
          day = day;
          log_cnt = 1;
        },
        true,
      )
  unfolding decis_file
  decis_file-other_day s position env opened new_day =
      let d : (s.day == day) ≡ false = ground arith in
      ap
        (λ b.
          if b
          then with_env year mon day true s s.fp
          else (record s { fp = if true then some 0 else none }, true))
        env
      ∙ ap (with_env year mon day true s) opened
      ∙ rw d refl

  pub put-name :
      (files : Files) (y m : ℕ) (v : Option Bytes)
      → ((m ≢ mon) ⊎ (y ≢ year))
      → put files (numbered y m day 0) v (name 0) ≡ files (name 0)
  unfolding put same_name
  put-name files y m v h = ground arith

  -- A call of DecisFile on the day of the open file, when that has 1 GB or more, and the file and
  -- those with a smaller number than the count are there: whether or not the new file can be opened,
  -- each of them gets the next number, so that no text is lost, and a new file is empty and counted.
  pub decis_file-rotated :
      (opens : Bool) (s : LogFile) (position : ℕ)
      → s.env ≡ true
      → s.fp ≡ some position
      → s.day ≡ day
      → one_log_file_limit ≤ position
      → 0 < s.log_cnt
      → ((i : ℕ) → i < s.log_cnt → (c : Bytes) × (s.files (name i) ≡ some c))
      → ((i : ℕ)
          → i < s.log_cnt
          → (decis_file year mon day opens s).0.files (name (i + 1)) ≡ s.files (name i))
        × (opens ≡ true
            → ((decis_file year mon day opens s).0.files (name 0) ≡ some [])
              × ((decis_file year mon day opens s).0.fp ≡ some 0)
              × ((decis_file year mon day opens s).0.log_cnt ≡ s.log_cnt + 1))
  unfolding rotate
  decis_file-rotated opens s position env opened same_day long counted there =
      let e = decis_file-too_long opens s position env opened same_day long in
      let n : s.log_cnt ≡ suc (s.log_cnt - 1) = omega arith in
      let moved = all_moved (s.log_cnt - 1) s.files (λ i l. there i (omega arith)) in
      rw e (
        λ i l.
            if_open opens
              (record s {
                files = rename (name 0) (name 1) (rename_loop year mon day (s.log_cnt - 1) s.files);
              })
              i
            ∙ moved i (omega arith),
        λ o. rw o (
          put-same (rename (name 0) (name 1) (rename_loop year mon day (s.log_cnt - 1) s.files))
              (name 0) (some []),
          refl,
          refl,
        ),
      )
