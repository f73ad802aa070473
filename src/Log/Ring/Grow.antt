-- ===== src/Log/Ring/Grow.antt =====
-- The ring with a further cell, which TryAppendLog makes where all cells are full.
use wslyh.Base.{List, Option, [], fault, none, null_pointer, ok, refl, some, ℕ, ◌++◌, ◌+◌, ◌∷◌, ◌≡◌}
use wslyh.Log.Cell.{Address}
use wslyh.Log.Ring.{RingLog, attach_cell, expand, shm_key}
use wslyh.Log.Ring.Chain.{All, Chain}
use wslyh.Log.Ring.Invariant.{IsBase, IsFull, IsRing}
use wslyh.Log.Ring.Expand.{
  Chain-expanded, IsBase-expanded, IsFull-expanded, IsNew-expanded, expanded,
}

pub expand-none :
    (shmget : ℕ → Option ℕ) (next : Address) (s : RingLog)
    → shmget (shm_key + s.buff_cnt) ≡ none
    → expand shmget next s ≡ fault null_pointer
unfolding expand
expand-none shmget next s e = rw (e, attach_cell)

-- the log with a further cell, between a cell `p` and the one that is persisted next
module _ (shmget : ℕ → Option ℕ)
    (injective : (j k i : ℕ) → shmget j ≡ some i → shmget k ≡ some i → j ≡ k) (fulls : List Address)
    (s : RingLog)
    (b : IsBase shmget s.memory s.one_buff_len s.buff_cnt s.prst_buf (fulls ++ s.cur_buf ∷ []))
    (chain : Chain s.memory (fulls ++ s.cur_buf ∷ []) s.prst_buf)
    (full : All IsFull s.memory (fulls ++ s.cur_buf ∷ []))
    (prst_id : s.prst_shm_id ≡ s.prst_buf.segment) (id : ℕ)
    (got : shmget (shm_key + s.buff_cnt) ≡ some id) where
  abbrev pub new_address : Address
  new_address = record { segment = id; attachment = s.attached }

  abbrev pub grown : RingLog
  grown = record s {
    memory =
        expanded shmget injective s.memory s.one_buff_len s.buff_cnt s.prst_buf s.cur_buf fulls b
          chain full new_address got;
    attached = s.attached + 1;
    buff_cnt = s.buff_cnt + 1;
    cur_buf = new_address;
  }

  pub expand-some : expand shmget s.prst_buf s ≡ ok grown
  unfolding expand
  expand-some = rw (got, attach_cell) refl

  pub IsRing-grown : IsRing shmget (fulls ++ s.cur_buf ∷ []) (new_address ∷ []) grown
  IsRing-grown =
      let new_cells =
        IsNew-expanded shmget injective s.memory s.one_buff_len s.buff_cnt s.prst_buf s.cur_buf
          fulls b chain full new_address got in
      record {
        base =
            IsBase-expanded shmget injective s.memory s.one_buff_len s.buff_cnt s.prst_buf s.cur_buf
              fulls b chain full new_address got;
        chain =
            Chain-expanded shmget injective s.memory s.one_buff_len s.buff_cnt s.prst_buf s.cur_buf
              fulls b chain full new_address got;
        cur = refl;
        full =
            IsFull-expanded shmget injective s.memory s.one_buff_len s.buff_cnt s.prst_buf s.cur_buf
              fulls b chain full new_address got;
        free = (new_cells.0.0, tt);
        blank = tt;
        prst_id = prst_id;
      }
