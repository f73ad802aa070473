-- ===== src/Log/File/NextDay.antt =====
-- The first save of PersistLog on another day (log/log.cpp).
use wslyh.Log.File.Saved.{save_all-Saved}
use wslyh.Log.File.Rotate.{decis_file-other_day, put-name, put-same}
use wslyh.Log.File.History.{Keeps, closed, in_use}
use wslyh.Base.{
  Bool, Bytes, List, Option, [], ap, arith, none, refl, some, true, ℕ, ◌++◌, ◌∙◌, ◌≡◌, ◌≢◌, ◌⊎◌,
}
use wslyh.Log.File.{Files, LogFile, Name, contents_of, numbered, put, save, save_all, write_text}

module _ (year mon day year' mon' day' : ℕ) (apart : day ≢ day')
    (other_name : (mon ≢ mon') ⊎ (year ≢ year')) where
  -- the name with the new day only
  abbrev mixed : Name
  mixed = numbered year mon day' 0

  -- The save goes on; the log of the mixed name is the text, and that of the right name is as it was.
  abbrev pub Misplaced : Bytes → LogFile → LogFile × Bool → Type 0
  Misplaced text s r =
      (r.1 ≡ true)
      × (r.0.files (numbered year mon day' 0) ≡ some text)
      × (r.0.files (numbered year' mon' day' 0) ≡ s.files (numbered year' mon' day' 0))

  save-Misplaced :
      (text kept : Bytes) (s : LogFile) (position : ℕ)
      → Keeps year mon day kept s
      → s.fp ≡ some position
      → Misplaced text s (save year' mon' day' true text s)
  unfolding save write_text
  save-Misplaced text kept _ position (Keeps.no_file files y m d cnt above e) opened =
      let never : ◌≡◌ {A = Option ℕ} none (some position) = opened in absurd cc
  save-Misplaced text kept _ position (Keeps.in_file files p before c there above e) opened =
      let emptied = put files mixed (some []) in
      rw
        (decis_file-other_day year' mon' day' (in_use year mon day files p before) p refl refl
          apart)
        (
          refl,
          put-same emptied mixed (some (contents_of (emptied mixed) ++ text))
              ∙ ap (λ o. some (contents_of o ++ text)) (put-same files mixed (some [])),
          put-name year' mon' day' emptied year mon (some (contents_of (emptied mixed) ++ text))
                other_name
              ∙ put-name year' mon' day' files year mon (some []) other_name,
        )

  -- PersistLog saves texts on one day, from the start of the log with its directory there, whatever the
  -- files are, until a file is open; then it saves a text on another day of another month or year, and
  -- fopen succeeds. The text is written to the log with the name of the first day's year and month and
  -- the new day, and is all that is there: what that file had before is lost. The log of the right
  -- name is as it was.
  pub save-new_day :
      (opens : List Bool) (texts : List Bytes) (files : Files) (y m d position : ℕ) (text : Bytes)
      → (save_all year mon day opens texts (closed files y m d 0)).0.fp ≡ some position
      → Misplaced text (save_all year mon day opens texts (closed files y m d 0)).0 (
          save year' mon' day' true text
            (save_all year mon day opens texts (closed files y m d 0)).0)
  save-new_day opens texts files y m d position text opened =
      let start = Keeps.no_file files y m d 0 (λ i l. absurd (omega arith)) refl in
      let (kept, keeps, e) =
        save_all-Saved year mon day opens texts [] (closed files y m d 0) start in
      save-Misplaced text kept (save_all year mon day opens texts (closed files y m d 0)).0 position
        keeps opened
