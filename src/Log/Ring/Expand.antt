-- ===== src/Log/Ring/Expand.antt =====
-- A cell added to a ring whose cells are all full, by the branch of TryAppendLog below the limit.
use mathlib.Core.Path.{subst}
use native.Mathlib.Decide.{ℕ_discrete}
use wslyh.Base.{
  List, Option, [], ap, append-nil, arith, length, pos, refl, some, sym, update, ℕ, ℤ, ◌++◌, ◌+◌,
  ◌∙◌, ◌∷◌, ◌≡◌, ◌≤◌,
}
use wslyh.Log.Cell.{Address, BufferCell, new_cell, text_of}
use wslyh.Log.Ring.{shm_key}
use wslyh.Log.Ring.Chain.{
  All, All-apart, All-append, All-keep, Apart, Apart-left, Apart-right, Chain, Chain-apart,
  Chain-append, Chain-keep, Chain-left, Distinct-middle, Distinct-snoc, Kept, Store, texts,
  texts-apart, texts-append, texts-keep, update_eq, update_ne,
}
use wslyh.Log.Ring.Invariant.{
  IsBase, IsBase-Apart, IsBase-prst, IsBase-relink, IsBlank, IsFree, IsFull, IsKeyed, IsSound,
}

-- no text, and free
abbrev pub IsNew : Address → BufferCell → Type 0
IsNew x c = IsFree x c × IsBlank x c

-- a new cell in the segment of a key that was not used
IsBase-new :
    (shmget : ℕ → Option ℕ) (m : Store) (len cnt : ℕ) (prst : Address) (order : List Address)
    (new : Address)
    → IsBase shmget m len cnt prst order
    → Apart new.segment order
    → shmget (shm_key + cnt) ≡ some new.segment
    → IsBase shmget
        (update m new.segment (new_cell new.segment len (m new.segment).contents))
        len
        (cnt + 1)
        prst
        (order ++ new ∷ [])
IsBase-new shmget m len cnt prst order new b k e =
    let i = new.segment in
    let c = new_cell i len (m i).contents in
    let m1 = update m i c in
    record {
      small = b.small;
      room = λ j. longer j (ℕ_discrete j i);
      sound =
          All-append (IsSound len) m1 order (new ∷ [])
            (All-apart (IsSound len) m i c order k b.sound)
            (subst (IsSound len new) (sym (update_eq m i c)) (refl, refl, omega arith), tt);
      keyed =
          All-append (IsKeyed shmget (cnt + 1)) m1 order (new ∷ []) (used order b.keyed)
            ((cnt, omega arith, e), tt);
      distinct = Distinct-snoc order new k b.distinct;
      head = (b.head.0 ++ new ∷ [], ap (λ (o : List Address). o ++ new ∷ []) b.head.1);
    }
  where
    longer :
        (j : ℕ)
        → Dec (j ≡ new.segment)
        → len
          ≤ length
              (update m new.segment (new_cell new.segment len (m new.segment).contents) j).contents
    longer j (yes h) =
        rw (h, update_eq m new.segment (new_cell new.segment len (m new.segment).contents))
          (b.room new.segment)
    longer j (no h) =
        rw (update_ne m new.segment j (new_cell new.segment len (m new.segment).contents) h)
          (b.room j)

    used :
        (xs : List Address)
        → All (IsKeyed shmget cnt) m xs
        → All
            (IsKeyed shmget (cnt + 1))
            (update m new.segment (new_cell new.segment len (m new.segment).contents))
            xs
    used [] h = tt
    used (x ∷ xs) ((j, l, f), hs) = ((j, omega arith, f), used xs hs)

module _ (shmget : ℕ → Option ℕ)
    (injective : (j k i : ℕ) → shmget j ≡ some i → shmget k ≡ some i → j ≡ k) (m : Store)
    (len cnt : ℕ) (prst p : Address) (fulls : List Address)
    (b : IsBase shmget m len cnt prst (fulls ++ p ∷ [])) (chain : Chain m (fulls ++ p ∷ []) prst)
    (full : All IsFull m (fulls ++ p ∷ [])) (new : Address)
    (got : shmget (shm_key + cnt) ≡ some new.segment) where
  abbrev order : List Address
  order = (fulls ++ p ∷ []) ++ new ∷ []

  apart : Apart new.segment (fulls ++ p ∷ [])
  apart = IsBase-Apart shmget m len cnt prst (fulls ++ p ∷ []) b new got injective

  -- the memory after each of the writes
  abbrev m1 : Store
  m1 = update m new.segment (new_cell new.segment len (m new.segment).contents)

  abbrev m2 : Store
  m2 =
      update m1 new.segment
        (record (m1 new.segment) { pre = some p; pre_shm_id = pos (m1 p.segment).shm_id })

  abbrev m3 : Store
  m3 =
      update m2 p.segment
        (record (m2 p.segment) { next = some new; next_shm_id = pos (m2 new.segment).shm_id })

  abbrev m4 : Store
  m4 =
      update m3 new.segment
        (record (m3 new.segment) { next = some prst; next_shm_id = pos (m3 prst.segment).shm_id })

  abbrev pub expanded : Store
  expanded =
      update m4 prst.segment
        (record (m4 prst.segment) { pre = some new; pre_shm_id = pos (m4 new.segment).shm_id })

  base1 : IsBase shmget m1 len (cnt + 1) prst order
  base1 = IsBase-new shmget m len cnt prst (fulls ++ p ∷ []) new b apart got

  -- a write of links keeps the cells
  linked :
      (n : Store) (q : Address) (next pre : Option Address) (next_id pre_id : ℤ)
      → IsBase shmget n len (cnt + 1) prst order
      → IsBase shmget
          (update n q.segment (record (n q.segment) {
            next = next;
            pre = pre;
            next_shm_id = next_id;
            pre_shm_id = pre_id;
          }))
          len
          (cnt + 1)
          prst
          order
  linked n q next pre next_id pre_id h =
      IsBase-relink shmget n len (cnt + 1) prst order h q.segment (n q.segment).status next pre
        next_id pre_id

  base3 : IsBase shmget m3 len (cnt + 1) prst order
  base3 =
      linked m2 p (some new) (m2 p.segment).pre (pos (m2 new.segment).shm_id)
        (m2 p.segment).pre_shm_id
        (linked m1 new (m1 new.segment).next (some p) (m1 new.segment).next_shm_id
          (pos (m1 p.segment).shm_id) base1)

  pub IsBase-expanded : IsBase shmget expanded len (cnt + 1) prst order
  IsBase-expanded =
      linked m4 prst (m4 prst.segment).next (some new) (m4 prst.segment).next_shm_id
        (pos (m4 new.segment).shm_id)
        (linked m3 new (some prst) (m3 new.segment).pre (pos (m3 prst.segment).shm_id)
          (m3 new.segment).pre_shm_id base3)

  -- what depends on a cell's status and text only
  keeps :
      (P : Address → BufferCell → Type 0) (n : Store) (q : Address) (c : BufferCell)
      (xs : List Address)
      → ((x : Address) → P x (n q.segment) → P x c)
      → All P n xs
      → All P (update n q.segment c) xs
  keeps P n q c xs h = All-keep P n q.segment c xs (λ x e. h x)

  pub IsFull-expanded : All IsFull expanded (fulls ++ p ∷ [])
  IsFull-expanded =
      keeps IsFull m4 prst _ (fulls ++ p ∷ []) (λ x h. h)
        (keeps IsFull m3 new _ (fulls ++ p ∷ []) (λ x h. h)
          (keeps IsFull m2 p _ (fulls ++ p ∷ []) (λ x h. h)
            (keeps IsFull m1 new _ (fulls ++ p ∷ []) (λ x h. h)
              (All-apart IsFull m new.segment _ (fulls ++ p ∷ []) apart full))))

  pub IsNew-expanded : All IsNew expanded (new ∷ [])
  IsNew-expanded =
      keeps IsNew m4 prst _ (new ∷ []) (λ x h. h)
        (keeps IsNew m3 new _ (new ∷ []) (λ x h. h)
          (keeps IsNew m2 p _ (new ∷ []) (λ x h. h)
            (keeps IsNew m1 new _ (new ∷ []) (λ x h. h)
              (
                subst (IsNew new)
                    (sym
                      (update_eq m new.segment (new_cell new.segment len (m new.segment).contents)))
                    (refl, refl),
                tt,
              ))))

  apart_p : Apart p.segment fulls
  apart_p = (Distinct-middle fulls [] p b.distinct).0

  new_id : (m2 new.segment).shm_id ≡ new.segment
  new_id =
      ap (λ c. c.shm_id)
        (update_eq m1 new.segment
          (record (m1 new.segment) { pre = some p; pre_shm_id = pos (m1 p.segment).shm_id }))
      ∙ ap (λ c. c.shm_id)
          (update_eq m new.segment (new_cell new.segment len (m new.segment).contents))

  -- the last write keeps links
  last_write : (xs : List Address) (a : Address) → Chain m4 xs a → Chain expanded xs a
  last_write xs a h = Chain-keep m4 prst.segment _ xs a refl refl h

  Chain-before : Chain m4 fulls p
  Chain-before =
      Chain-apart m3 new.segment _ fulls p (Apart-left new.segment fulls (p ∷ []) apart) (
        Chain-apart m2 p.segment _ fulls p apart_p (
          Chain-keep m1 new.segment _ fulls p refl refl (
            Chain-apart m new.segment _ fulls p (Apart-left new.segment fulls (p ∷ []) apart)
              (Chain-left m fulls (p ∷ []) prst chain))))

  Chain-p : Chain m4 (p ∷ []) new
  Chain-p =
      let e =
        update_eq m2 p.segment
          (record (m2 p.segment) { next = some new; next_shm_id = pos (m2 new.segment).shm_id }) in
      Chain-apart m3 new.segment _ (p ∷ []) new (Apart-right new.segment fulls (p ∷ []) apart)
        (ap (λ c. c.next) e, ap (λ c. c.next_shm_id) e ∙ ap pos new_id, tt)

  Chain-new : Chain m4 (new ∷ []) prst
  Chain-new =
      let e = update_eq m3 new.segment (record (m3 new.segment) {
        next = some prst;
        next_shm_id = pos (m3 prst.segment).shm_id;
      }) in
      (
        ap (λ c. c.next) e,
        ap (λ c. c.next_shm_id) e ∙ ap pos (IsBase-prst shmget m3 len (cnt + 1) prst order base3).0,
        tt,
      )

  pub Chain-expanded : Chain expanded order prst
  Chain-expanded = last_write order prst (
      Chain-append m4 (fulls ++ p ∷ []) (new ∷ []) prst
        (Chain-append m4 fulls (p ∷ []) new Chain-before Chain-p) Chain-new)

  pub texts-expanded : texts expanded order ≡ texts m (fulls ++ p ∷ [])
  texts-expanded =
      texts-keep m4 prst.segment _ order refl
      ∙ texts-keep m3 new.segment _ order refl
      ∙ texts-keep m2 p.segment _ order refl
      ∙ texts-keep m1 new.segment _ order refl
      ∙ texts-append m1 (fulls ++ p ∷ []) (new ∷ [])
      ∙ ap (λ c. texts m1 (fulls ++ p ∷ []) ++ (text_of c ++ []))
          (update_eq m new.segment (new_cell new.segment len (m new.segment).contents))
      ∙ append-nil (texts m1 (fulls ++ p ∷ []))
      ∙ texts-apart m new.segment _ (fulls ++ p ∷ []) apart

  pub Kept-expanded : (n : Store) → All (Kept n) m fulls → All (Kept n) expanded fulls
  Kept-expanded n h =
      keeps (Kept n) m4 prst _ fulls (λ x k. k)
        (keeps (Kept n) m3 new _ fulls (λ x k. k)
          (keeps (Kept n) m2 p _ fulls (λ x k. k)
            (keeps (Kept n) m1 new _ fulls (λ x k. k)
              (All-apart (Kept n) m new.segment _ fulls
                (Apart-left new.segment fulls (p ∷ []) apart) h))))
