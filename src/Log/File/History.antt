-- ===== src/Log/File/History.antt =====
-- The files of one day keep what PersistLog saved, in order.
use wslyh.Log.File.Joined.{There-put, at, joined, joined-last, joined-put, joined-shifted}
use wslyh.Base.{
  Bool, Bool-cases, Bytes, Option, [], ap, append-nil, append_assoc, arith, false, if◌then◌else◌,
  inl, inr, leb, length, none, refl, some, suc, sym, true, zero, ℕ, ◌++◌, ◌+◌, ◌-◌, ◌<◌, ◌==◌, ◌∙◌,
  ◌≡◌,
}
use wslyh.Log.File.{
  Files, LogFile, contents_of, decis_file, first_file, one_log_file_limit, put, rename, rename_loop,
  rotate, save, write_text, write_to,
}
use wslyh.Log.File.Rotate.{There, all_moved, name, put-same}
use mathlib.Core.Path.{subst}

-- no file is open
abbrev pub closed : Files → ℕ → ℕ → ℕ → ℕ → LogFile
closed files y m d cnt = record {
  files = files;
  fp = none;
  year = y;
  mon = m;
  day = d;
  log_cnt = cnt;
  env = true;
}

module _ (year mon day : ℕ) where
  -- the file of the day is open
  abbrev pub in_use : Files → ℕ → ℕ → LogFile
  in_use files position before = record {
    files = files;
    fp = some position;
    year = year;
    mon = mon;
    day = day;
    log_cnt = suc before;
    env = true;
  }

  -- What was saved so far is in the files: where none is open, in those from number 1 on.
  pub data Keeps (text : Bytes) : LogFile → Type 0 where
    no_file :
        (files : Files) (y m d cnt : ℕ)
        → There year mon day cnt files
        → joined year mon day files 1 cnt ≡ text
        → Keeps text (closed files y m d cnt)
    in_file :
        (files : Files) (position before : ℕ) (c : Bytes)
        → files (name year mon day 0) ≡ some c
        → There year mon day before files
        → joined year mon day files 1 before ++ c ≡ text
        → Keeps text (in_use files position before)

  write-Keeps :
      (files : Files) (position before : ℕ) (c text more : Bytes)
      → files (name year mon day 0) ≡ some c
      → There year mon day before files
      → joined year mon day files 1 before ++ c ≡ text
      → Keeps (text ++ more) (write_text more position (in_use files position before))
  unfolding write_text
  write-Keeps files position before c text more there above e =
      let v = some (contents_of (files (name year mon day 0)) ++ more) in
      let c' : contents_of (files (name year mon day 0)) ≡ c = ap contents_of there in
      Keeps.in_file (put files (name year mon day 0) v) (position + length more) before (c ++ more)
        (put-same files (name year mon day 0) v ∙ ap (λ t. some (t ++ more)) c')
        (There-put year mon day files v before above)
        (ap (λ t. t ++ (c ++ more)) (joined-put year mon day files v before)
          ∙ sym (append_assoc (joined year mon day files 1 before) c more)
          ∙ ap (λ t. t ++ more) e)

  -- the first file of the day, or the next after one that could not be opened
  opened-Keeps :
      (files : Files) (before : ℕ) (text : Bytes)
      → There year mon day before files
      → joined year mon day files 1 before ≡ text
      → Keeps text (in_use (put files (name year mon day 0) (some [])) 0 before)
  opened-Keeps files before text above e =
      let v : Option Bytes = some [] in
      Keeps.in_file (put files (name year mon day 0) v) 0 before []
        (put-same files (name year mon day 0) v) (There-put year mon day files v before above)
        (append-nil (joined year mon day (put files (name year mon day 0) v) 1 before)
          ∙ joined-put year mon day files v before
          ∙ e)

  module _ (files : Files) (before : ℕ) (c text : Bytes)
      (there : files (name year mon day 0) ≡ some c) (above : There year mon day before files)
      (e : joined year mon day files 1 before ++ c ≡ text) where
    all_there : (i : ℕ) → i < suc before → (d : Bytes) × (files (name year mon day i) ≡ some d)
    all_there zero l = (c, there)
    all_there (suc i) l =
        let (d, p) = above i (omega arith) in
        let q : i + 1 ≡ suc i = omega arith in
        (d, ap (λ k. files (name year mon day k)) (sym q) ∙ p)

    abbrev moved : Files
    moved =
        rename (name year mon day 0) (name year mon day 1) (rename_loop year mon day before files)

    moved-There : There year mon day (suc before) moved
    moved-There i l =
        let (d, p) = all_there i l in (d, all_moved year mon day before files all_there i l ∙ p)

    moved-joined : joined year mon day moved 1 (suc before) ≡ text
    moved-joined =
        joined-shifted year mon day files moved 0 (suc before) (λ i l.
          let q : 0 + 1 + i ≡ i + 1 = omega arith in
          let r : i ≡ 0 + i = omega arith in
          ap (at year mon day moved) q
          ∙ ap contents_of (all_moved year mon day before files all_there i l)
          ∙ ap (at year mon day files) r)
        ∙ joined-last year mon day files 0 before
        ∙ ap (λ t. joined year mon day files 1 before ++ contents_of t) there
        ∙ e

    rotate-moved :
        (opens : Bool) (position : ℕ)
        → rotate year mon day opens (in_use files position before) ≡ (
            if opens
            then in_use (put moved (name year mon day 0) (some [])) 0 (suc before)
            else closed moved year mon day (suc before))
    unfolding rotate
    rotate-moved true position =
        let n : suc before - 1 ≡ before = omega arith in
        let k : suc before + 1 ≡ suc (suc before) = omega arith in rw (n, k) refl
    rotate-moved false position = let n : suc before - 1 ≡ before = omega arith in rw n refl

    rotate-Keeps :
        (opens : Bool) (position : ℕ)
        → Keeps text (rotate year mon day opens (in_use files position before))
    rotate-Keeps true position =
        subst (Keeps text) (sym (rotate-moved true position))
          (opened-Keeps moved (suc before) text moved-There moved-joined)
    rotate-Keeps false position =
        subst (Keeps text) (sym (rotate-moved false position))
          (Keeps.no_file moved year mon day (suc before) moved-There moved-joined)

    rotate-opened :
        (opens : Bool) (position : ℕ)
        → opens ≡ true
        → (p : ℕ) × ((rotate year mon day opens (in_use files position before)).fp ≡ some p)
    unfolding rotate
    rotate-opened true position e = (0, refl)
    rotate-opened false position e = absurd (ground (arith, e))

  -- what a call of DecisFile leads to
  abbrev Decided : Bytes → LogFile × Bool → Type 0
  Decided text (s, got) = Keeps text s × (got ≡ true → (p : ℕ) × (s.fp ≡ some p))

  decis_file-Keeps :
      (opens : Bool) (text : Bytes) (s : LogFile)
      → Keeps text s
      → Decided text (decis_file year mon day opens s)
  unfolding decis_file first_file rotate
  decis_file-Keeps false text _ (Keeps.no_file files y m d cnt above e) =
      (Keeps.no_file files year mon day cnt above e, λ never. absurd (ground (arith, never)))
  decis_file-Keeps true text _ (Keeps.no_file files y m d cnt above e) =
      let n : cnt + 1 ≡ suc cnt = omega arith in
      (
        subst
            (λ k.
              Keeps text
                (record (in_use (put files (name year mon day 0) (some [])) 0 cnt) { log_cnt = k }))
            (sym n) (opened-Keeps files cnt text above e),
        λ _. (0, refl),
      )
  decis_file-Keeps opens text _ (Keeps.in_file files position before c there above e) =
      let today : (day == day) ≡ true = ground arith in
      rw today (elim (Bool-cases (leb one_log_file_limit position)) [
        | inl long ↦ rw long (
          rotate-Keeps files before c text there above e opens position,
          rotate-opened files before c text there above e opens position,
        )
        | inr short ↦
            rw short (Keeps.in_file files position before c there above e, λ _. (position, refl))
      ])

  written-Keeps :
      (text more : Bytes) (r : LogFile × Bool)
      → Decided text r
      → Keeps (if r.1 then text ++ more else text) (if r.1 then write_to r.0.fp more r.0 else r.0)
  written-Keeps text more (s, false) (kept, opened) = kept
  written-Keeps text more (_, true) (Keeps.no_file files y m d cnt above e, opened) =
      let (p, q) = opened refl in absurd (ground (arith, q))
  written-Keeps text more (_, true) (Keeps.in_file files position before c there above e, opened) =
      write-Keeps files position before c text more there above e

  pub save-Keeps :
      (opens : Bool) (text more : Bytes) (s : LogFile)
      → Keeps text s
      → Keeps
          (if (save year mon day opens more s).1 then text ++ more else text)
          (save year mon day opens more s).0
  unfolding save
  save-Keeps opens text more s k =
      written-Keeps text more (decis_file year mon day opens s) (decis_file-Keeps opens text s k)
