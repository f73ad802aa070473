-- ===== src/Log/Ring/Filled.antt =====
-- The current cell marked full, and the current pointer moved on: what TryAppendLog does with a cell
-- that is too short for a line, and PersistLog with one that it takes.
use mathlib.Core.Path.{subst}
use wslyh.Base.{List, Option, [], ap, append_assoc, refl, some, sym, ℕ, ◌++◌, ◌<◌, ◌∙◌, ◌∷◌, ◌≡◌}
use wslyh.Log.Cell.{Address, BufferStatus}
use wslyh.Log.Ring.{RingLog, cell, set_full}
use wslyh.Log.Ring.Chain.{
  All, All-Kept, All-apart, All-append, Apart, Chain, Chain-keep, Chain-right, Distinct-middle,
  Kept, first, others, texts, texts-keep, update_eq,
}
use wslyh.Log.Ring.Invariant.{IsBase, IsBase-relink, IsBlank, IsFree, IsFull, IsRing}

module _ (shmget : ℕ → Option ℕ) (fulls rest : List Address) (c : Address) (s : RingLog)
    (r : IsRing shmget fulls (c ∷ rest) s) where
  -- `c` marked full
  abbrev pub marked : RingLog
  marked = set_full c s

  pub cur-eq : s.cur_buf ≡ c
  cur-eq = r.cur

  regroup : (fulls ++ c ∷ []) ++ rest ≡ fulls ++ c ∷ rest
  regroup = append_assoc fulls (c ∷ []) rest

  pub IsBase-marked :
      IsBase shmget marked.memory s.one_buff_len s.buff_cnt s.prst_buf ((fulls ++ c ∷ []) ++ rest)
  IsBase-marked =
      subst (IsBase shmget marked.memory s.one_buff_len s.buff_cnt s.prst_buf) (sym regroup) (
        IsBase-relink shmget s.memory s.one_buff_len s.buff_cnt s.prst_buf (fulls ++ c ∷ rest)
          r.base c.segment BufferStatus.full (cell s c).next (cell s c).pre (cell s c).next_shm_id
          (cell s c).pre_shm_id)

  pub Chain-marked : Chain marked.memory ((fulls ++ c ∷ []) ++ rest) s.prst_buf
  Chain-marked =
      subst (λ o. Chain marked.memory o s.prst_buf) (sym regroup)
        (Chain-keep s.memory c.segment (record (cell s c) { status = BufferStatus.full })
          (fulls ++ c ∷ rest) s.prst_buf refl refl r.chain)

  apart : Apart c.segment fulls × Apart c.segment rest
  apart = Distinct-middle fulls rest c r.base.distinct

  written : cell marked c ≡ record (cell s c) { status = BufferStatus.full }
  written = update_eq s.memory c.segment (record (cell s c) { status = BufferStatus.full })

  pub IsFull-marked : 0 < (cell s c).cur_length → All IsFull marked.memory (fulls ++ c ∷ [])
  IsFull-marked l =
      All-append IsFull marked.memory fulls (c ∷ [])
        (All-apart IsFull s.memory c.segment _ fulls apart.0 r.full)
        ((ap (λ d. d.status) written, subst (λ d. 0 < d.cur_length) (sym written) l), tt)

  pub IsFree-marked : All IsFree marked.memory rest
  IsFree-marked = All-apart IsFree s.memory c.segment _ rest apart.1 r.free.1

  pub IsBlank-marked : All IsBlank marked.memory rest
  IsBlank-marked = All-apart IsBlank s.memory c.segment _ rest apart.1 r.blank

  -- the next cell of the marked one
  pub next-marked : (cell marked c).next ≡ some (first rest s.prst_buf)
  next-marked =
      ap (λ d. d.next) written ∙ (Chain-right s.memory fulls (c ∷ rest) s.prst_buf r.chain).0

  -- the next cell, as the one that becomes current
  pub next-first : first rest s.prst_buf ≡ first (rest ++ (fulls ++ c ∷ [])) s.prst_buf
  next-first = by_rest rest r.base.head
    where
      by_rest :
          (ys : List Address)
          → ((zs : List Address) × (fulls ++ c ∷ ys ≡ s.prst_buf ∷ zs))
          → first ys s.prst_buf ≡ first (ys ++ (fulls ++ c ∷ [])) s.prst_buf
      by_rest [] (zs, e) = sym (ap (λ o. first o s.prst_buf) e)
      by_rest (y ∷ ys) h = refl

  pub texts-marked :
      texts marked.memory ((fulls ++ c ∷ []) ++ rest) ≡ texts s.memory (fulls ++ c ∷ rest)
  texts-marked =
      ap (texts marked.memory) regroup
      ∙ texts-keep s.memory c.segment (record (cell s c) { status = BufferStatus.full })
          (fulls ++ c ∷ rest) refl

  pub Kept-marked : All (Kept s.memory) marked.memory fulls
  Kept-marked =
      All-apart (Kept s.memory) s.memory c.segment _ fulls apart.0 (All-Kept s.memory fulls)

  pub IsRing-filled :
      0 < (cell s c).cur_length
      → IsRing shmget (fulls ++ c ∷ []) rest (record marked { cur_buf = first rest s.prst_buf })
  IsRing-filled l = record {
    base = IsBase-marked;
    chain = Chain-marked;
    cur = next-first;
    full = IsFull-marked l;
    free = IsFree-marked;
    blank = others-blank rest IsBlank-marked;
    prst_id = r.prst_id;
  }
    where
      others-blank :
          (ys : List Address) → All IsBlank marked.memory ys → All IsBlank marked.memory (others ys)
      others-blank [] h = tt
      others-blank (y ∷ ys) h = h.1
