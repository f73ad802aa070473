-- ===== src/Base/Members.antt =====
-- Membership in lists of numbers.
use Prim.Native.Nat.{ℕ}
use mathlib.Core.Path.{◌≡◌}
use mathlib.Core.Logic.{◌⊎◌}
use mathlib.Core.List.{List, [], ◌∷◌}

abbrev pub Mem : ℕ → List ℕ → Type 0
Mem n [] = ⊥
Mem n (x ∷ xs) = (n ≡ x) ⊎ Mem n xs

abbrev pub Nodup : List ℕ → Type 0
Nodup [] = Unit
Nodup (x ∷ xs) = (¬ Mem x xs) × Nodup xs
