-- ===== src/Log/Ring/Invariant.antt =====
-- What holds of the ring of CRingLog between its operations.
use mathlib.Core.Path.{subst}
use native.Mathlib.Decide.{ℕ_discrete}
use wslyh.Base.{
  List, Option, [], ap, arith, length, refl, some, update, ℕ, ℤ, ◌++◌, ◌+◌, ◌<◌, ◌^◌, ◌∙◌, ◌∷◌, ◌≡◌,
  ◌≤◌,
}
use wslyh.Log.Cell.{Address, BufferCell, BufferStatus}
use wslyh.Log.Ring.{RingLog, shm_key}
use wslyh.Log.Ring.Chain.{
  All, All-append, All-keep, Apart, Chain, Chain-append, Distinct, Distinct-snoc, Store, first,
  others, update_eq, update_ne,
}

-- The cell knows its segment, has the length of the log's cells, and is filled within it.
abbrev pub IsSound : ℕ → Address → BufferCell → Type 0
IsSound len x c = (c.shm_id ≡ x.segment) × (c.tol_length ≡ len) × (c.cur_length ≤ c.tol_length)

-- The segment is that of a key used so far.
abbrev pub IsKeyed : (ℕ → Option ℕ) → ℕ → Address → BufferCell → Type 0
IsKeyed shmget cnt x c = (k : ℕ) × (k < cnt) × (shmget (shm_key + k) ≡ some x.segment)

abbrev pub IsFull : Address → BufferCell → Type 0
IsFull x c = (c.status ≡ BufferStatus.full) × (0 < c.cur_length)

abbrev pub IsFree : Address → BufferCell → Type 0
IsFree x c = c.status ≡ BufferStatus.free

abbrev pub IsBlank : Address → BufferCell → Type 0
IsBlank x c = c.cur_length ≡ 0

-- The cells of the ring, in order from the one that is persisted next.
pub record IsBase (shmget : ℕ → Option ℕ) (m : Store) (len cnt : ℕ) (prst : Address)
    (order : List Address) : Type 0 where
  pub small : len < 2 ^ 32
  -- shmget gives segments that are long enough
  pub room : (i : ℕ) → len ≤ length (m i).contents
  pub sound : All (IsSound len) m order
  pub keyed : All (IsKeyed shmget cnt) m order
  pub distinct : Distinct order
  pub head : (rest : List Address) × (order ≡ prst ∷ rest)

-- The cells of the ring are first full ones, then free ones, of which only the current one, the
-- first, has a text. If all are full, the current one is the one that is persisted next.
pub record IsRing (shmget : ℕ → Option ℕ) (fulls frees : List Address) (s : RingLog) : Type 0 where
  pub base : IsBase shmget s.memory s.one_buff_len s.buff_cnt s.prst_buf (fulls ++ frees)
  pub chain : Chain s.memory (fulls ++ frees) s.prst_buf
  pub cur : s.cur_buf ≡ first (frees ++ fulls) s.prst_buf
  pub full : All IsFull s.memory fulls
  pub free : All IsFree s.memory frees
  pub blank : All IsBlank s.memory (others frees)
  pub prst_id : s.prst_shm_id ≡ s.prst_buf.segment

module _ (shmget : ℕ → Option ℕ) (m : Store) (len cnt : ℕ) (prst : Address) (order : List Address)
    (b : IsBase shmget m len cnt prst order) where
  -- a write that keeps a cell's text within bounds
  pub IsBase-update :
      (p : ℕ) (c : BufferCell)
      → c.shm_id ≡ (m p).shm_id
      → c.tol_length ≡ (m p).tol_length
      → ((m p).cur_length ≤ (m p).tol_length → c.cur_length ≤ c.tol_length)
      → length c.contents ≡ length (m p).contents
      → IsBase shmget (update m p c) len cnt prst order
  IsBase-update p c d t k l = record {
    small = b.small;
    room = λ j. longer j (ℕ_discrete j p);
    sound =
        All-keep (IsSound len) m p c order
          (λ x e (h : IsSound len x (m p)). (d ∙ h.0, t ∙ h.1, k h.2)) b.sound;
    keyed = All-keep (IsKeyed shmget cnt) m p c order (λ x e h. h) b.keyed;
    distinct = b.distinct;
    head = b.head;
  }
    where
      longer : (j : ℕ) → Dec (j ≡ p) → len ≤ length (update m p c j).contents
      longer j (yes e) = rw (e, update_eq m p c, l) (b.room p)
      longer j (no e) = rw (update_ne m p j c e) (b.room j)

  -- A write of a cell's status or its links alone, where `c` is the cell with them written.
  pub IsBase-relink :
      (p : ℕ) (st : BufferStatus) (next pre : Option Address) (next_id pre_id : ℤ)
      → IsBase shmget
          (update m p (record (m p) {
            status = st;
            next = next;
            pre = pre;
            next_shm_id = next_id;
            pre_shm_id = pre_id;
          }))
          len
          cnt
          prst
          order
  IsBase-relink p st next pre next_id pre_id =
      IsBase-update p
        (record (m p) {
          status = st;
          next = next;
          pre = pre;
          next_shm_id = next_id;
          pre_shm_id = pre_id;
        })
        refl refl (λ h. h) refl

  -- the cell that is persisted next
  pub IsBase-prst : IsSound len prst (m prst.segment)
  IsBase-prst = (subst (All (IsSound len) m) b.head.1 b.sound).0

  -- the segment of a key that was not used is apart
  pub IsBase-Apart :
      (new : Address)
      → shmget (shm_key + cnt) ≡ some new.segment
      → ((j k : ℕ) (i : ℕ) → shmget j ≡ some i → shmget k ≡ some i → j ≡ k)
      → Apart new.segment order
  IsBase-Apart new e inj = apart order b.keyed
    where
      apart : (xs : List Address) → All (IsKeyed shmget cnt) m xs → Apart new.segment xs
      apart [] h = tt
      apart (x ∷ xs) ((k, l, f), hs) = (
        λ g.
            let same : shm_key + cnt ≡ shm_key + k =
              inj (shm_key + cnt) (shm_key + k) new.segment e (f ∙ ap some g) in
            absurd (omega arith),
        apart xs hs,
      )

-- the ring from the next cell on
pub IsBase-rotate :
    (shmget : ℕ → Option ℕ) (m : Store) (len cnt : ℕ) (x : Address) (xs : List Address)
    → IsBase shmget m len cnt x (x ∷ xs)
    → IsBase shmget m len cnt (first xs x) (xs ++ x ∷ [])
IsBase-rotate shmget m len cnt x xs b = record {
  small = b.small;
  room = b.room;
  sound = All-append (IsSound len) m xs (x ∷ []) b.sound.1 (b.sound.0, tt);
  keyed = All-append (IsKeyed shmget cnt) m xs (x ∷ []) b.keyed.1 (b.keyed.0, tt);
  distinct = Distinct-snoc xs x b.distinct.0 b.distinct.1;
  head = headed xs;
}
  where
    headed : (ys : List Address) → (rest : List Address) × (ys ++ x ∷ [] ≡ first ys x ∷ rest)
    headed [] = ([], refl)
    headed (y ∷ ys) = (ys ++ x ∷ [], refl)

pub Chain-rotate :
    (m : Store) (x : Address) (xs : List Address)
    → Chain m (x ∷ xs) x
    → Chain m (xs ++ x ∷ []) (first xs x)
Chain-rotate m x xs (n, i, h) = Chain-append m xs (x ∷ []) (first xs x) h (n, i, tt)
