-- ===== src/Server/Opened.antt =====
-- The descriptors that the program has open, by the calls that it made of epoll_ctl and close.
use wslyh.Base.{
  List, Mem, Nodup, [], ap, arith, if◌then◌else◌, inl, inr, length, refl, sym, ℕ, ◌++◌, ◌+◌, ◌==◌,
  ◌∷◌, ◌≡◌, ◌≢◌,
}
use wslyh.Http.{Effect}
use mathlib.Core.Path.{subst}

abbrev pub remove : ℕ → List ℕ → List ℕ
remove n [] = []
remove n (x ∷ xs) = if x == n then remove n xs else x ∷ remove n xs

pub mem-remove : (n m : ℕ) (xs : List ℕ) → Mem m (remove n xs) → Mem m xs × (m ≢ n)
mem-remove n m [] h = absurd h
mem-remove n m (x ∷ xs) h = ground (arith, mem-remove n m xs)

pub remove-mem : (n m : ℕ) (xs : List ℕ) → Mem m xs → m ≢ n → Mem m (remove n xs)
remove-mem n m [] h d = h
remove-mem n m (x ∷ xs) h d = ground (arith, remove-mem n m xs)

pub Nodup-remove : (n : ℕ) (xs : List ℕ) → Nodup xs → Nodup (remove n xs)
Nodup-remove n [] h = tt
Nodup-remove n (x ∷ xs) h = ground (arith, Nodup-remove n xs h.1, mem-remove n x xs)

pub remove-absent : (n : ℕ) (xs : List ℕ) → ¬ Mem n xs → remove n xs ≡ xs
remove-absent n [] h = refl
remove-absent n (x ∷ xs) h =
    let d : x ≢ n = λ e. h (inl (sym e)) in
    let rest = remove-absent n xs (λ m. h (inr m)) in ground arith

pub length-remove :
    (n : ℕ) (xs : List ℕ) → Nodup xs → Mem n xs → length (remove n xs) + 1 ≡ length xs
length-remove n [] d h = absurd h
length-remove n (x ∷ xs) d (inl e) =
    let absent : ¬ Mem n xs = λ m. d.0 (subst (λ k. Mem k xs) e m) in
    let rest = remove-absent n xs absent in
    let l : length (remove n xs) ≡ length xs = ap (λ (o : List ℕ). length o) rest in ground arith
length-remove n (x ∷ xs) d (inr m) =
    let apart : x ≢ n = λ e. d.0 (subst (λ k. Mem k xs) (sym e) m) in
    let rest = length-remove n xs d.1 m in ground arith

-- accept adds a descriptor when it is registered, and close takes it away
abbrev pub opened_from : List Effect → List ℕ → List ℕ
opened_from [] o = o
opened_from (Effect.ctl_add fd trigger_mode one_shot ∷ es) o = opened_from es (fd ∷ o)
opened_from (Effect.ctl_mod fd ev trigger_mode ∷ es) o = opened_from es o
opened_from (Effect.ctl_del fd ∷ es) o = opened_from es o
opened_from (Effect.close fd ∷ es) o = opened_from es (remove fd o)

pub opened_from-append :
    (es fs : List Effect) (o : List ℕ)
    → opened_from (es ++ fs) o ≡ opened_from fs (opened_from es o)
opened_from-append [] fs o = refl
opened_from-append (Effect.ctl_add fd trigger_mode one_shot ∷ es) fs o =
    opened_from-append es fs (fd ∷ o)
opened_from-append (Effect.ctl_mod fd ev trigger_mode ∷ es) fs o = opened_from-append es fs o
opened_from-append (Effect.ctl_del fd ∷ es) fs o = opened_from-append es fs o
opened_from-append (Effect.close fd ∷ es) fs o = opened_from-append es fs (remove fd o)
