-- ===== src/Log/File/Tests.antt =====
-- A log whose files hold their number.
use wslyh.Log.File.NextDay.{Misplaced, save-new_day}
use wslyh.Log.File.History.{closed}
use wslyh.Log.File.Saved.{concat, log_of, save_all-log_of}
use wslyh.Base.{
  Bytes, List, [], arith, false, inl, length, refl, some, true, ◌++◌, ◌-◌, ◌∷◌, ◌≡◌, ◌≤◌,
}
use wslyh.Log.File.{Files, decis_file, first_file, save, save_all, write_text}

abbrev two_texts : List Bytes
two_texts = (b'a' ∷ []) ∷ (b'b' ∷ []) ∷ []

abbrev old_files : Files
old_files n = some (n.number ∷ [])

-- The first call of fopen fails, and the second cell is not reached.
save_all-log_of_example :
    (log_of 2025 1 31
          (save_all 2025 1 31 (false ∷ true ∷ []) two_texts (closed old_files 0 0 0 0)).0
        ++ concat (save_all 2025 1 31 (false ∷ true ∷ []) two_texts (closed old_files 0 0 0 0)).1
      ≡ concat two_texts)
    × (length (save_all 2025 1 31 (false ∷ true ∷ []) two_texts (closed old_files 0 0 0 0)).1
        ≤ 2 - 1)
save_all-log_of_example = save_all-log_of 2025 1 31 (false ∷ true ∷ []) two_texts old_files 0 0 0

-- On the first of February the log of the first of January is written.
save-new_day_example :
    Misplaced 2025 1 31 2025 2 1
      (λ e. absurd (omega (arith, e)))
      (inl (λ e. absurd (omega (arith, e))))
      (b'c' ∷ [])
      (save_all 2025 1 31 (true ∷ true ∷ []) two_texts (closed old_files 0 0 0 0)).0
      (save 2025 2 1 true
        (b'c' ∷ [])
        (save_all 2025 1 31 (true ∷ true ∷ []) two_texts (closed old_files 0 0 0 0)).0)
unfolding save_all save decis_file first_file write_text
save-new_day_example =
    save-new_day 2025 1 31 2025 2 1 (λ e. absurd (omega (arith, e)))
      (inl (λ e. absurd (omega (arith, e)))) (true ∷ true ∷ []) two_texts old_files 0 0 0 2
      (b'c' ∷ []) refl
