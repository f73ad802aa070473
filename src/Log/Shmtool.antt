-- ===== src/Log/Shmtool.antt =====
-- log/shmtool.cpp: the arguments of the tool, and what it does with the ring of the log that they lead
-- to. ftok and shmget are left out.
use wslyh.Base.{
  Bool, Bool-cases, Bytes, List, Option, [], arith, codes, equal, false, if◌then◌else◌, inl, inr,
  length, none, refl, some, true, ◌==◌, ◌∷◌, ◌≡◌,
}

not_both : (z : Bytes) → equal z (codes "-f") ≡ true → equal z (codes "-d") ≡ false
unfolding equal
not_both [] e = refl
not_both (a ∷ []) e = ground arith
not_both (a ∷ b ∷ c) e = ground arith

-- `realpath` is by the pointer that it gets, `none` for the null pointer behind the last argument.
module _ (realpath : Option Bytes → Option Bytes) where
  -- the loop over the arguments, from the first that is left; `none` where it prints the usage
  unfoldable pub read_args : List Bytes → Option Bytes → Bool → Option (Option Bytes × Bool)
  read_args [] exe_path is_del = some (exe_path, is_del)
  read_args (arg ∷ []) exe_path is_del =
      if equal arg (codes "-f")
      then some (realpath none, is_del)
      else if equal arg (codes "-d")
      then some (exe_path, true)
      else none
  read_args (arg ∷ next ∷ args) exe_path is_del =
      let named = read_args args (realpath (some next)) is_del in
      let deleting = read_args (next ∷ args) exe_path true in
      if equal arg (codes "-f") then named else if equal arg (codes "-d") then deleting else none

  -- `if (!exePath)`
  abbrev pub with_path : Option (Option Bytes × Bool) → Option (Bytes × Bool)
  with_path none = none
  with_path (some (none, is_del)) = none
  with_path (some (some exe_path, is_del)) = some (exe_path, is_del)

  -- main, up to the test of exePath; the arguments are those behind the name of the program
  unfoldable pub main_args : List Bytes → Option (Bytes × Bool)
  main_args args =
      if length args == 2
      then with_path (read_args args none false)
      else if length args == 3
      then with_path (read_args args none false)
      else none

  -- the usage: `-f exefilepath [-d]`, with the two in either order, for a path that is found
  abbrev pub found : Bytes → Bool → Option (Bytes × Bool)
  found path is_del = with_path (some (realpath (some path), is_del))

  abbrev pub usage : List Bytes → Option (Bytes × Bool)
  usage (x ∷ y ∷ []) = if equal x (codes "-f") then found y false else none
  usage (x ∷ y ∷ z ∷ []) =
      if equal x (codes "-f")
      then (if equal z (codes "-d") then found y true else none)
      else if equal x (codes "-d")
      then (if equal y (codes "-f") then found z true else none)
      else none
  usage _ = none

  module _ (of_null : realpath none ≡ none) where
    one_left : (arg : Bytes) (is_del : Bool) → with_path (read_args (arg ∷ []) none is_del) ≡ none
    unfolding read_args
    one_left arg is_del = elim (Bool-cases (equal arg (codes "-f"))) [
      | inl f ↦ rw (f, of_null) refl
      | inr f ↦ elim (Bool-cases (equal arg (codes "-d"))) [
        | inl d ↦ rw (f, d) refl
        | inr d ↦ rw (f, d) refl
      ]
    ]

    two_args : (x y : Bytes) → main_args (x ∷ y ∷ []) ≡ usage (x ∷ y ∷ [])
    unfolding main_args read_args
    two_args x y = elim (Bool-cases (equal x (codes "-f"))) [
      | inl f ↦ rw f refl
      | inr f ↦ elim (Bool-cases (equal x (codes "-d"))) [
        | inl d ↦ rw (f, d) (one_left y true)
        | inr d ↦ rw (f, d) refl
      ]
    ]

    path_first :
        (y z : Bytes)
        → with_path (read_args (z ∷ []) (realpath (some y)) false)
          ≡ (if equal z (codes "-d") then found y true else none)
    unfolding read_args
    path_first y z = elim (Bool-cases (equal z (codes "-f"))) [
      | inl f ↦ rw (f, not_both z f, of_null) refl
      | inr f ↦ elim (Bool-cases (equal z (codes "-d"))) [
        | inl d ↦ rw (f, d) refl
        | inr d ↦ rw (f, d) refl
      ]
    ]

    path_last :
        (y z : Bytes)
        → with_path (read_args (y ∷ z ∷ []) none true)
          ≡ (if equal y (codes "-f") then found z true else none)
    unfolding read_args
    path_last y z = elim (Bool-cases (equal y (codes "-f"))) [
      | inl f ↦ rw f refl
      | inr f ↦ elim (Bool-cases (equal y (codes "-d"))) [
        | inl d ↦ rw (f, d) (one_left z true)
        | inr d ↦ rw (f, d) refl
      ]
    ]

    three_args : (x y z : Bytes) → main_args (x ∷ y ∷ z ∷ []) ≡ usage (x ∷ y ∷ z ∷ [])
    unfolding main_args read_args
    three_args x y z = elim (Bool-cases (equal x (codes "-f"))) [
      | inl f ↦ rw f (path_first y z)
      | inr f ↦ elim (Bool-cases (equal x (codes "-d"))) [
        | inl d ↦ rw (f, d) (path_last y z)
        | inr d ↦ rw (f, d) refl
      ]
    ]

    -- With a realpath that gives a null pointer for a null pointer, the arguments lead to a walk over
    -- the ring exactly where they are `-f exefilepath`, `-f exefilepath -d` or `-d -f exefilepath`,
    -- for a path that is found; the cells are removed with `-d` only. The usage is printed otherwise.
    pub main_args-usage : (args : List Bytes) → main_args args ≡ usage args
    unfolding main_args
    main_args-usage [] = refl
    main_args-usage (x ∷ []) = refl
    main_args-usage (x ∷ y ∷ []) = two_args x y
    main_args-usage (x ∷ y ∷ z ∷ []) = three_args x y z
    main_args-usage (x ∷ y ∷ z ∷ w ∷ args) =
        let a : (length (x ∷ y ∷ z ∷ w ∷ args) == 2) ≡ false = ground arith in
        let b : (length (x ∷ y ∷ z ∷ w ∷ args) == 3) ≡ false = ground arith in rw (a, b) refl
