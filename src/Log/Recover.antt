-- ===== src/Log/Recover.antt =====
-- log/shmtool.cpp, main from the ring on: the walk that saves what is left in the cells, and removes
-- them with -d.
use wslyh.Base.{
  Bool, Bytes, List, Option, Outcome, [], ap, false, fault, if◌then◌else◌, length, no_fuel, ok,
  refl, suc, sym, true, zero, ℕ, ◌++◌, ◌<◌, ◌==◌, ◌>>=◌, ◌^◌, ◌∷◌, ◌≡◌, ◌≤◌,
}
use wslyh.Log.Cell.{Address, BufferCell, is_empty, persist}
use wslyh.Log.Left.{==-ne, ==-refl, attached_id, round_text}
use wslyh.Log.Clear.{segments}
use wslyh.Log.Ring.{RingLog}
use wslyh.Log.Ring.Chain.{All, Apart, Chain, Distinct, texts}
use wslyh.Log.Ring.Invariant.{IsRing, IsSound}
use mathlib.Core.Path.{subst}

-- The loop, at the segment `cur`: what reaches leaveLog.log, and the segments that are removed.
unfoldable pub recover_loop : ℕ → (ℕ → BufferCell) → Bool → ℕ → ℕ → Outcome (Bytes × List ℕ)
recover_loop zero memory is_del head cur = fault no_fuel
recover_loop (suc rounds) memory is_del head cur = do
  text ← if is_empty (memory cur) then ok [] else persist (memory cur).cur_length (memory cur)
  next ← attached_id (memory cur).next_shm_id
  let onward = recover_loop rounds memory is_del head next
  (rest, removed) ← if next == head then ok ([], []) else onward
  ok (text ++ rest, if is_del then cur ∷ removed else removed)

-- `id` is the segment that leads to the ring, which is removed as well.
unfoldable pub recover : ℕ → Bool → ℕ → RingLog → Outcome (Bytes × List ℕ)
recover rounds is_del id s = do
  (text, removed) ← recover_loop rounds s.memory is_del s.prst_shm_id s.prst_shm_id
  ok (text, if is_del then removed ++ id ∷ [] else removed)

-- the segments that are removed
abbrev pub removed_of : Bool → List Address → List ℕ
removed_of is_del xs = if is_del then segments xs else []

module _ (memory : ℕ → BufferCell) (len : ℕ) (small : len < 2 ^ 32)
    (room : (i : ℕ) → len ≤ length (memory i).contents) (is_del : Bool) where
  removed_more :
      (x : Address) (xs : List Address)
      → (if is_del then x.segment ∷ removed_of is_del xs else removed_of is_del xs)
        ≡ removed_of is_del (x ∷ xs)
  removed_more x xs =
      elim is_del
        as (λ b.
          (if b then x.segment ∷ removed_of b xs else removed_of b xs) ≡ removed_of b (x ∷ xs)) [
            | true ↦ refl
            | false ↦ refl
          ]

  recover_loop_lem :
      (head x : Address) (xs : List Address)
      → All (IsSound len) memory (x ∷ xs)
      → Chain memory (x ∷ xs) head
      → Apart head.segment xs
      → recover_loop (suc (length xs)) memory is_del head.segment x.segment
        ≡ ok (texts memory (x ∷ xs), removed_of is_del (x ∷ xs))
  unfolding recover_loop
  recover_loop_lem head x [] (s, ss) (n, i, h) a =
      rw (round_text memory len small room x s, i, ==-refl head.segment) refl
  recover_loop_lem head x (y ∷ xs) (s, ss) (n, i, h) (k, a) =
      rw
        (
          round_text memory len small room x s,
          i,
          ==-ne y.segment head.segment k,
          recover_loop_lem head y xs ss h a,
        )
        (ap (λ (r : List ℕ). ok (texts memory (x ∷ y ∷ xs), r)) (removed_more x (y ∷ xs)))

all_removed :
    (is_del : Bool) (id : ℕ) (xs : List Address)
    → (if is_del then removed_of is_del xs ++ id ∷ [] else removed_of is_del xs)
      ≡ (if is_del then segments xs ++ id ∷ [] else [])
all_removed true id xs = refl
all_removed false id xs = refl

-- where the ring is left at the end
abbrev pub Recovered : Bool → ℕ → List Address → RingLog → Outcome (Bytes × List ℕ) → Type 0
Recovered is_del id xs s r =
    r ≡ ok (texts s.memory xs, if is_del then segments xs ++ id ∷ [] else [])

-- Where the ring that the program left is in order, the tool ends, after as many rounds as the ring has
-- cells: it writes the texts of all cells, from the one that was to be persisted next. With -d it
-- removes the segment of each cell and the one that leads to the ring, and without -d none.
pub recover-Recovered :
    (shmget : ℕ → Option ℕ) (fulls frees : List Address) (s : RingLog) (is_del : Bool) (id : ℕ)
    → IsRing shmget fulls frees s
    → Recovered is_del id (fulls ++ frees) s (recover (length (fulls ++ frees)) is_del id s)
unfolding recover
recover-Recovered shmget fulls frees s is_del id r =
    let (rest, e) = r.base.head in
    let loop =
      recover_loop_lem s.memory s.one_buff_len r.base.small r.base.room is_del s.prst_buf s.prst_buf
        rest (subst (All (IsSound s.one_buff_len) s.memory) e r.base.sound)
        (subst (λ o. Chain s.memory o s.prst_buf) e r.chain) (subst Distinct e r.base.distinct).0 in
    let all : recover_loop (length (fulls ++ frees)) s.memory is_del s.prst_buf.segment
          s.prst_buf.segment
        ≡ ok (texts s.memory (fulls ++ frees), removed_of is_del (fulls ++ frees)) =
      subst
        (λ o.
          recover_loop (length o) s.memory is_del s.prst_buf.segment s.prst_buf.segment
          ≡ ok (texts s.memory o, removed_of is_del o))
        (sym e) loop in
    rw (r.prst_id, all)
      (ap (λ (o : List ℕ). ok (texts s.memory (fulls ++ frees), o))
        (all_removed is_del id (fulls ++ frees)))
