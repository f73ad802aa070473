-- ===== src/Log/Clear.antt =====
-- log/log.cpp, GetPrstCBShmId: the removal of the ring that an earlier run of the program left.
use mathlib.Core.Path.{subst}
use wslyh.Base.{
  Bool, List, Option, Outcome, [], false, fault, if◌then◌else◌, length, no_fuel, none, ok,
  out_of_bounds, refl, some, suc, sym, true, zero, ℕ, ◌++◌, ◌==◌, ◌>>=◌, ◌∷◌, ◌≡◌,
}
use wslyh.Log.Cell.{Address, BufferCell}
use wslyh.Log.Left.{==-ne, ==-refl, attached_id}
use wslyh.Log.Ring.{RingLog}
use wslyh.Log.Ring.Chain.{Apart, Chain, Distinct}
use wslyh.Log.Ring.Invariant.{IsRing}

-- The loop, at the segment `cur`: the segments that are removed, in order. A segment is read before it
-- is removed.
unfoldable pub clear_loop : ℕ → (ℕ → BufferCell) → ℕ → ℕ → Outcome (List ℕ)
clear_loop zero memory head cur = fault no_fuel
clear_loop (suc rounds) memory head cur = do
  next ← attached_id (memory cur).next_shm_id
  let onward = clear_loop rounds memory head next
  rest ← if next == head then ok [] else onward
  ok (cur ∷ rest)

-- GetPrstCBShmId from the first shmget on: `created` is what that gives, `exists` whether it fails
-- for EEXIST, and `existing` what the second gives, which is made then. The result is the id of the
-- segment that leads to the ring, `none` for -1, with what is removed; the int in it is the one that
-- m_pPrstBCShmId of the earlier run led to.
unfoldable pub get_prst_cb_shm_id :
    ℕ → Option ℕ → Bool → Option ℕ → RingLog → Outcome (Option ℕ × List ℕ)
unfolding clear_loop
get_prst_cb_shm_id rounds (some id) exists existing s = ok (some id, [])
get_prst_cb_shm_id rounds none false existing s = ok (none, [])
get_prst_cb_shm_id rounds none true none s = fault out_of_bounds
get_prst_cb_shm_id rounds none true (some id) s = do
  removed ← clear_loop rounds s.memory s.prst_shm_id s.prst_shm_id
  ok (some id, removed)

abbrev pub segments : List Address → List ℕ
segments [] = []
segments (x ∷ xs) = x.segment ∷ segments xs

clear_loop_lem :
    (memory : ℕ → BufferCell) (head x : Address) (xs : List Address)
    → Chain memory (x ∷ xs) head
    → Apart head.segment xs
    → clear_loop (suc (length xs)) memory head.segment x.segment ≡ ok (segments (x ∷ xs))
unfolding clear_loop
clear_loop_lem memory head x [] (n, i, h) a = rw (i, ==-refl head.segment) refl
clear_loop_lem memory head x (y ∷ xs) (n, i, h) (k, a) =
    rw (i, ==-ne y.segment head.segment k, clear_loop_lem memory head y xs h a) refl

-- Where an earlier run left a ring in order, and the segment that leads to it, GetPrstCBShmId ends,
-- after as many rounds as the ring has cells, and removes each of their segments once, which are all
-- different, from the one that was to be persisted next.
pub get_prst_cb_shm_id-segments :
    (shmget : ℕ → Option ℕ) (fulls frees : List Address) (s : RingLog) (id : ℕ)
    → IsRing shmget fulls frees s
    → (get_prst_cb_shm_id (length (fulls ++ frees)) none true (some id) s
        ≡ ok (some id, segments (fulls ++ frees)))
      × Distinct (fulls ++ frees)
unfolding get_prst_cb_shm_id
get_prst_cb_shm_id-segments shmget fulls frees s id r =
    let (rest, e) = r.base.head in
    let loop =
      clear_loop_lem s.memory s.prst_buf s.prst_buf rest
        (subst (λ o. Chain s.memory o s.prst_buf) e r.chain) (subst Distinct e r.base.distinct).0 in
    let all : clear_loop (length (fulls ++ frees)) s.memory s.prst_buf.segment s.prst_buf.segment
        ≡ ok (segments (fulls ++ frees)) =
      subst
        (λ o.
          clear_loop (length o) s.memory s.prst_buf.segment s.prst_buf.segment ≡ ok (segments o))
        (sym e) loop in
    (rw (r.prst_id, all) refl, r.base.distinct)
