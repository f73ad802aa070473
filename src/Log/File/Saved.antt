-- ===== src/Log/File/Saved.antt =====
-- The rounds of PersistLog on one day lose no text.
use wslyh.Log.File.Joined.{joined, joined-last}
use wslyh.Log.File.History.{Keeps, closed, save-Keeps}
use wslyh.Base.{
  Bool, Bytes, List, Option, [], ap, append_assoc, arith, false, if◌then◌else◌, leb, length, none,
  not, refl, some, suc, sym, true, ℕ, ◌++◌, ◌-◌, ◌==◌, ◌∙◌, ◌∷◌, ◌≡◌, ◌≤◌,
}
use wslyh.Log.File.{
  Files, LogFile, contents_of, decis_file, one_log_file_limit, rotate, save, save_all, with_env,
}
use mathlib.Core.Path.{subst}

-- the texts of the cells, one behind the other
abbrev pub concat : List Bytes → Bytes
concat [] = []
concat (text ∷ texts) = text ++ concat texts

-- how many calls of fopen succeed
abbrev pub successes : List Bool → ℕ
successes [] = 0
successes (o ∷ os) = if o then suc (successes os) else successes os

module _ (year mon day : ℕ) where
  -- what was saved, and what is left, are together the text so far and the texts
  abbrev pub Saved : Bytes → LogFile × List Bytes → Type 0
  Saved all (s, left) = (text : Bytes) × Keeps year mon day text s × (text ++ concat left ≡ all)

  pub save_all-Saved :
      (opens : List Bool) (texts : List Bytes) (text : Bytes) (s : LogFile)
      → Keeps year mon day text s
      → Saved (text ++ concat texts) (save_all year mon day opens texts s)
  unfolding save_all
  save_all-Saved [] texts text s k = (text, k, refl)
  save_all-Saved (o ∷ os) [] text s k = (text, k, refl)
  save_all-Saved (o ∷ os) (more ∷ texts) text s k =
      let got = (save year mon day o more s).1 in
      subst
        (λ all. Saved all (
          save_all year mon day os (if got then texts else more ∷ texts)
            (save year mon day o more s).0))
        (same_text got)
        (save_all-Saved os (if got then texts else more ∷ texts)
          (if got then text ++ more else text) (save year mon day o more s).0
          (save-Keeps year mon day o text more s k))
    where
      same_text :
          (got : Bool)
          → (if got then text ++ more else text) ++ concat (if got then texts else more ∷ texts)
            ≡ text ++ (more ++ concat texts)
      same_text true = append_assoc text more (concat texts)
      same_text false = refl

  -- what the files of the day have, in order
  abbrev pub log_of : LogFile → Bytes
  log_of s = elim s.fp [
    | none ↦ joined year mon day s.files 1 s.log_cnt
    | some position ↦ joined year mon day s.files 0 s.log_cnt
  ]

  Keeps-log_of : (text : Bytes) (s : LogFile) → Keeps year mon day text s → log_of s ≡ text
  Keeps-log_of text _ (Keeps.no_file files y m d cnt above e) = e
  Keeps-log_of text _ (Keeps.in_file files position before c there above e) =
      joined-last year mon day files 0 before
      ∙ ap (λ t. joined year mon day files 1 before ++ contents_of t) there
      ∙ e

  if-snd :
      (b : Bool) (x y : LogFile × Bool) → x.1 ≡ true → y.1 ≡ true → (if b then x else y).1 ≡ true
  if-snd true x y p q = p
  if-snd false x y p q = q

  with_env-true : (s : LogFile) (fp : Option ℕ) → (with_env year mon day true s fp).1 ≡ true
  with_env-true s none = refl
  with_env-true s (some position) = if-snd (not (s.day == day)) _ _ refl (
      if-snd (leb one_log_file_limit position) (rotate year mon day true s, true) (s, true) refl
        refl)

  -- there is a file, where fopen succeeds
  save-true : (more : Bytes) (s : LogFile) → (save year mon day true more s).1 ≡ true
  unfolding save decis_file
  save-true more s = if-snd s.env (with_env year mon day true s s.fp) _ (with_env-true s s.fp) refl

  left_after : List Bool → List Bytes → LogFile → ℕ
  left_after opens texts s = length (save_all year mon day opens texts s).1

  -- one text less is left where fopen succeeds, at least
  save_all-left :
      (opens : List Bool) (texts : List Bytes) (s : LogFile)
      → left_after opens texts s ≤ length texts - successes opens
  unfolding left_after save_all
  save_all-left [] texts s = omega arith
  save_all-left (o ∷ os) [] s = omega arith
  save_all-left (true ∷ os) (text ∷ texts) s =
      let s' = (save year mon day true text s).0 in
      let rest = save_all-left os texts s' in
      subst
        (λ b.
          length (save_all year mon day os (if b then texts else text ∷ texts) s').1
          ≤ length (text ∷ texts) - successes (true ∷ os))
        (sym (save-true text s)) (omega (arith, rest))
  save_all-left (false ∷ os) (text ∷ texts) s =
      let s' = (save year mon day false text s).0 in
      elim (save year mon day false text s).1
        as (λ b.
          length (save_all year mon day os (if b then texts else text ∷ texts) s').1
          ≤ length (text ∷ texts) - successes os) [
            | true ↦ let rest = save_all-left os texts s' in omega (arith, rest)
            | false ↦ save_all-left os (text ∷ texts) s'
          ]

  -- The rounds of PersistLog on one day, from the start of the log with its directory there, whatever
  -- the files are and whichever calls of fopen succeed: the files of the day, the one with the highest
  -- number first and the one without a number last, have the texts of the cells in order, up to those
  -- that are left. At least as many cells are saved as calls of fopen succeed, up to all of them.
  pub save_all-log_of :
      (opens : List Bool) (texts : List Bytes) (files : Files) (y m d : ℕ)
      → (log_of (save_all year mon day opens texts (closed files y m d 0)).0
            ++ concat (save_all year mon day opens texts (closed files y m d 0)).1
          ≡ concat texts)
        × (length (save_all year mon day opens texts (closed files y m d 0)).1
            ≤ length texts - successes opens)
  unfolding left_after
  save_all-log_of opens texts files y m d =
      let start = Keeps.no_file files y m d 0 (λ i l. absurd (omega arith)) refl in
      let r = save_all year mon day opens texts (closed files y m d 0) in
      let (text, kept, e) = save_all-Saved opens texts [] (closed files y m d 0) start in
      (
        ap (λ t. t ++ concat r.1) (Keeps-log_of text r.0 kept) ∙ e,
        save_all-left opens texts (closed files y m d 0),
      )
