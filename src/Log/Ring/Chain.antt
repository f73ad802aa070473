-- ===== src/Log/Ring/Chain.antt =====
-- Lists of buffer cells in shared memory: what holds of each cell, how they are linked, and that no
-- two of them are one segment. A write to one segment keeps what it does not touch.
use mathlib.Core.Path.{subst}
use native.Mathlib.Decide.{ℕ_discrete}
use wslyh.Base.{
  Bytes, List, [], ap, append-nil, append_assoc, arith, pos, refl, some, sym, update, ℕ, ◌++◌, ◌∙◌,
  ◌∷◌, ◌≡◌, ◌≢◌,
}
use wslyh.Log.Cell.{Address, BufferCell, text_of}

abbrev pub Store : Type 0
Store = ℕ → BufferCell

module _ {ℓ} {A : Type ℓ} where
  pub update_eq : (m : ℕ → A) (p : ℕ) (c : A) → update m p c p ≡ c
  update_eq m p c = ground arith

  pub update_ne : (m : ℕ → A) (p i : ℕ) (c : A) → i ≢ p → update m p c i ≡ m i
  update_ne m p i c h = ground arith

abbrev pub All : (Address → BufferCell → Type 0) → Store → List Address → Type 0
All P m [] = Unit
All P m (x ∷ xs) = P x (m x.segment) × All P m xs

abbrev pub first : List Address → Address → Address
first [] a = a
first (x ∷ xs) a = x

abbrev pub others : List Address → List Address
others [] = []
others (x ∷ xs) = xs

-- Each cell's next pointer and id lead to the cell behind it, and the last one's to `a`.
abbrev pub Chain : Store → List Address → Address → Type 0
Chain m [] a = Unit
Chain m (x ∷ xs) a =
    ((m x.segment).next ≡ some (first xs a))
    × ((m x.segment).next_shm_id ≡ pos (first xs a).segment)
    × Chain m xs a

-- no cell of the list is the segment
abbrev pub Apart : ℕ → List Address → Type 0
Apart p [] = Unit
Apart p (x ∷ xs) = (x.segment ≢ p) × Apart p xs

abbrev pub Distinct : List Address → Type 0
Distinct [] = Unit
Distinct (x ∷ xs) = Apart x.segment xs × Distinct xs

-- the texts of the cells, in order
abbrev pub texts : Store → List Address → Bytes
texts m [] = []
texts m (x ∷ xs) = text_of (m x.segment) ++ texts m xs

module _ (P : Address → BufferCell → Type 0) where
  pub All-append : (m : Store) (xs ys : List Address) → All P m xs → All P m ys → All P m (xs ++ ys)
  All-append m [] ys h k = k
  All-append m (x ∷ xs) ys (h, hs) k = (h, All-append m xs ys hs k)

  pub All-left : (m : Store) (xs ys : List Address) → All P m (xs ++ ys) → All P m xs
  All-left m [] ys h = tt
  All-left m (x ∷ xs) ys (h, hs) = (h, All-left m xs ys hs)

  pub All-right : (m : Store) (xs ys : List Address) → All P m (xs ++ ys) → All P m ys
  All-right m [] ys h = h
  All-right m (x ∷ xs) ys (h, hs) = All-right m xs ys hs

  pub All-apart :
      (m : Store) (p : ℕ) (c : BufferCell) (xs : List Address)
      → Apart p xs
      → All P m xs
      → All P (update m p c) xs
  All-apart m p c [] a h = tt
  All-apart m p c (x ∷ xs) (k, ks) (h, hs) =
      (subst (P x) (sym (update_ne m p x.segment c k)) h, All-apart m p c xs ks hs)

  -- a write that keeps what holds of the segment's cell
  pub All-keep :
      (m : Store) (p : ℕ) (c : BufferCell) (xs : List Address)
      → ((x : Address) → x.segment ≡ p → P x (m p) → P x c)
      → All P m xs
      → All P (update m p c) xs
  All-keep m p c [] k h = tt
  All-keep m p c (x ∷ xs) k (h, hs) = (here (ℕ_discrete x.segment p), All-keep m p c xs k hs)
    where
      here : Dec (x.segment ≡ p) → P x (update m p c x.segment)
      here (yes e) =
          subst (P x) (sym (ap (update m p c) e ∙ update_eq m p c))
            (k x e (subst (λ i. P x (m i)) e h))
      here (no e) = subst (P x) (sym (update_ne m p x.segment c e)) h

-- the cell has the text that it had in `m`
abbrev pub Kept : Store → Address → BufferCell → Type 0
Kept m x c = text_of c ≡ text_of (m x.segment)

pub All-Kept : (m : Store) (xs : List Address) → All (Kept m) m xs
All-Kept m [] = tt
All-Kept m (x ∷ xs) = (refl, All-Kept m xs)

pub Chain-append :
    (m : Store) (xs ys : List Address) (a : Address)
    → Chain m xs (first ys a)
    → Chain m ys a
    → Chain m (xs ++ ys) a
Chain-append m [] ys a h k = k
Chain-append m (x ∷ []) ys a (n, i, h) k = (n, i, k)
Chain-append m (x ∷ y ∷ xs) ys a (n, i, h) k = (n, i, Chain-append m (y ∷ xs) ys a h k)

pub Chain-left :
    (m : Store) (xs ys : List Address) (a : Address)
    → Chain m (xs ++ ys) a
    → Chain m xs (first ys a)
Chain-left m [] ys a h = tt
Chain-left m (x ∷ []) ys a (n, i, h) = (n, i, tt)
Chain-left m (x ∷ y ∷ xs) ys a (n, i, h) = (n, i, Chain-left m (y ∷ xs) ys a h)

pub Chain-right :
    (m : Store) (xs ys : List Address) (a : Address) → Chain m (xs ++ ys) a → Chain m ys a
Chain-right m [] ys a h = h
Chain-right m (x ∷ xs) ys a (n, i, h) = Chain-right m xs ys a h

pub Chain-apart :
    (m : Store) (p : ℕ) (c : BufferCell) (xs : List Address) (a : Address)
    → Apart p xs
    → Chain m xs a
    → Chain (update m p c) xs a
Chain-apart m p c [] a k h = tt
Chain-apart m p c (x ∷ xs) a (k, ks) (n, i, h) =
    let e = update_ne m p x.segment c k in
    (ap (λ d. d.next) e ∙ n, ap (λ d. d.next_shm_id) e ∙ i, Chain-apart m p c xs a ks h)

-- a write that keeps the links
pub Chain-keep :
    (m : Store) (p : ℕ) (c : BufferCell) (xs : List Address) (a : Address)
    → c.next ≡ (m p).next
    → c.next_shm_id ≡ (m p).next_shm_id
    → Chain m xs a
    → Chain (update m p c) xs a
Chain-keep m p c [] a f g h = tt
Chain-keep m p c (x ∷ xs) a f g (n, i, h) = (
  next_kept (ℕ_discrete x.segment p) ∙ n,
  id_kept (ℕ_discrete x.segment p) ∙ i,
  Chain-keep m p c xs a f g h,
)
  where
    next_kept : Dec (x.segment ≡ p) → (update m p c x.segment).next ≡ (m x.segment).next
    next_kept (yes e) = rw e (ap (λ d. d.next) (update_eq m p c) ∙ f)
    next_kept (no e) = ap (λ d. d.next) (update_ne m p x.segment c e)

    id_kept : Dec (x.segment ≡ p) → (update m p c x.segment).next_shm_id ≡ (m x.segment).next_shm_id
    id_kept (yes e) = rw e (ap (λ d. d.next_shm_id) (update_eq m p c) ∙ g)
    id_kept (no e) = ap (λ d. d.next_shm_id) (update_ne m p x.segment c e)

pub Apart-append : (p : ℕ) (xs ys : List Address) → Apart p xs → Apart p ys → Apart p (xs ++ ys)
Apart-append p [] ys h k = k
Apart-append p (x ∷ xs) ys (h, hs) k = (h, Apart-append p xs ys hs k)

pub Apart-left : (p : ℕ) (xs ys : List Address) → Apart p (xs ++ ys) → Apart p xs
Apart-left p [] ys h = tt
Apart-left p (x ∷ xs) ys (h, hs) = (h, Apart-left p xs ys hs)

pub Apart-right : (p : ℕ) (xs ys : List Address) → Apart p (xs ++ ys) → Apart p ys
Apart-right p [] ys h = h
Apart-right p (x ∷ xs) ys (h, hs) = Apart-right p xs ys hs

pub Distinct-middle :
    (xs ys : List Address) (y : Address)
    → Distinct (xs ++ y ∷ ys)
    → Apart y.segment xs × Apart y.segment ys
Distinct-middle [] ys y (h, k) = (tt, h)
Distinct-middle (x ∷ xs) ys y (h, k) =
    let (l, r) = Distinct-middle xs ys y k in
    ((λ e. (Apart-right x.segment xs (y ∷ ys) h).0 (sym e), l), r)

pub Distinct-snoc :
    (xs : List Address) (y : Address) → Apart y.segment xs → Distinct xs → Distinct (xs ++ y ∷ [])
Distinct-snoc [] y h k = (tt, tt)
Distinct-snoc (x ∷ xs) y (h, hs) (k, ks) =
    (Apart-append x.segment xs (y ∷ []) k (λ e. h (sym e), tt), Distinct-snoc xs y hs ks)

pub texts-append :
    (m : Store) (xs ys : List Address) → texts m (xs ++ ys) ≡ texts m xs ++ texts m ys
texts-append m [] ys = refl
texts-append m (x ∷ xs) ys =
    rw (texts-append m xs ys) (sym (append_assoc (text_of (m x.segment)) (texts m xs) (texts m ys)))

pub texts-apart :
    (m : Store) (p : ℕ) (c : BufferCell) (xs : List Address)
    → Apart p xs
    → texts (update m p c) xs ≡ texts m xs
texts-apart m p c [] h = refl
texts-apart m p c (x ∷ xs) (h, hs) =
    ap (λ d. text_of d ++ texts (update m p c) xs) (update_ne m p x.segment c h)
    ∙ ap (λ t. text_of (m x.segment) ++ t) (texts-apart m p c xs hs)

-- cells that are empty have no text
pub texts-empty :
    (m : Store) (xs : List Address) → All (λ x c. c.cur_length ≡ 0) m xs → texts m xs ≡ []
texts-empty m [] h = refl
texts-empty m (x ∷ xs) (h, hs) = rw (h, texts-empty m xs hs) refl

-- a write that keeps a cell's text
pub texts-keep :
    (m : Store) (p : ℕ) (c : BufferCell) (xs : List Address)
    → text_of c ≡ text_of (m p)
    → texts (update m p c) xs ≡ texts m xs
texts-keep m p c [] h = refl
texts-keep m p c (x ∷ xs) h =
    ap (λ t. t ++ texts (update m p c) xs) (here (ℕ_discrete x.segment p))
    ∙ ap (λ t. text_of (m x.segment) ++ t) (texts-keep m p c xs h)
  where
    here : Dec (x.segment ≡ p) → text_of (update m p c x.segment) ≡ text_of (m x.segment)
    here (yes e) = rw e (ap text_of (update_eq m p c) ∙ h)
    here (no e) = ap text_of (update_ne m p x.segment c e)

pub first-behind :
    (ys zs : List Address) (p a b : Address)
    → first (ys ++ p ∷ zs) a ≡ first ((ys ++ p ∷ []) ++ zs) b
first-behind [] zs p a b = refl
first-behind (y ∷ ys) zs p a b = refl

pub Apart-others : (p : ℕ) (xs : List Address) → Apart p xs → Apart p (others xs)
Apart-others p [] h = tt
Apart-others p (x ∷ xs) h = h.1

pub All-others_snoc :
    (P : Address → BufferCell → Type 0) (m : Store) (xs : List Address) (x : Address)
    → All P m (others xs)
    → P x (m x.segment)
    → All P m (others (xs ++ x ∷ []))
All-others_snoc P m [] x h k = tt
All-others_snoc P m (y ∷ xs) x h k = All-append P m xs (x ∷ []) h (k, tt)

-- a line appended to the last cell that has a text
pub texts-appended :
    (m : Store) (p : Address) (c : BufferCell) (line : Bytes) (xs ys : List Address)
    → Apart p.segment xs
    → texts (update m p.segment c) ys ≡ []
    → texts m ys ≡ []
    → text_of c ≡ text_of (m p.segment) ++ line
    → texts (update m p.segment c) (xs ++ p ∷ ys) ≡ texts m (xs ++ p ∷ ys) ++ line
texts-appended m p c line xs ys a e f h =
    let old = text_of (m p.segment) in
    texts-append (update m p.segment c) xs (p ∷ ys)
    ∙ ap (λ t. t ++ (text_of (update m p.segment c p.segment) ++ texts (update m p.segment c) ys))
        (texts-apart m p.segment c xs a)
    ∙ ap (λ d. texts m xs ++ (text_of d ++ texts (update m p.segment c) ys))
        (update_eq m p.segment c)
    ∙ ap (λ t. texts m xs ++ (text_of c ++ t)) e
    ∙ ap (λ t. texts m xs ++ t) (append-nil (text_of c) ∙ h)
    ∙ sym (append_assoc (texts m xs) old line)
    ∙ ap (λ t. (texts m xs ++ t) ++ line) (sym (append-nil old))
    ∙ ap (λ t. (texts m xs ++ (old ++ t)) ++ line) (sym f)
    ∙ ap (λ t. t ++ line) (sym (texts-append m xs (p ∷ ys)))
