-- ===== src/Log/Left.antt =====
-- log/shmtool.cpp: the walk over the ring in shared memory, once the program has ended.
use mathlib.Core.Path.{subst}
use wslyh.Base.{
  Bytes, List, Option, Outcome, [], ap, arith, false, fault, if◌then◌else◌, length, negsuc, no_fuel,
  ok, out_of_bounds, pos, refl, suc, sym, take, true, zero, ℕ, ℤ, ◌++◌, ◌<◌, ◌==◌, ◌>>=◌, ◌^◌, ◌∷◌,
  ◌≡◌, ◌≢◌, ◌≤◌,
}
use wslyh.Log.Cell.{
  Address, BufferCell, is_empty, is_empty-pos, is_empty-zero, persist, persist_lem, text_of,
}
use wslyh.Log.Ring.{RingLog}
use wslyh.Log.Ring.Chain.{All, Apart, Chain, Distinct, texts}
use wslyh.Log.Ring.Invariant.{IsRing, IsSound}

-- shmat of an id; for -1 it gives an address that cannot be read
abbrev pub attached_id : ℤ → Outcome ℕ
attached_id (pos i) = ok i
attached_id (negsuc i) = fault out_of_bounds

-- The loop, at the segment `cur`: the bytes that reach leaveLog.log, where fwrite writes all.
unfoldable pub left_loop : ℕ → (ℕ → BufferCell) → ℕ → ℕ → Outcome Bytes
left_loop zero memory head cur = fault no_fuel
left_loop (suc rounds) memory head cur = do
  text ← if is_empty (memory cur) then ok [] else persist (memory cur).cur_length (memory cur)
  next ← attached_id (memory cur).next_shm_id
  let onward = left_loop rounds memory head next
  rest ← if next == head then ok [] else onward
  ok (text ++ rest)

-- from the id that m_pPrstBCShmId leads to
unfoldable pub left_data : ℕ → RingLog → Outcome Bytes
unfolding left_loop
left_data rounds s = left_loop rounds s.memory s.prst_shm_id s.prst_shm_id

pub ==-refl : (n : ℕ) → (n == n) ≡ true
==-refl n = ground arith

pub ==-ne : (m n : ℕ) → m ≢ n → (m == n) ≡ false
==-ne m n h = ground arith

module _ (memory : ℕ → BufferCell) (len : ℕ) (small : len < 2 ^ 32)
    (room : (i : ℕ) → len ≤ length (memory i).contents) where
  -- one round's text
  pub round_text :
      (x : Address)
      → IsSound len x (memory x.segment)
      → (if is_empty (memory x.segment)
          then ok []
          else persist (memory x.segment).cur_length (memory x.segment))
        ≡ ok (text_of (memory x.segment))
  round_text x s = by_length (memory x.segment).cur_length refl
    where
      c : BufferCell
      c = memory x.segment

      by_length :
          (n : ℕ)
          → c.cur_length ≡ n
          → (if is_empty c then ok [] else persist c.cur_length c) ≡ ok (text_of c)
      by_length zero e = rw (is_empty-zero c e) (ap (λ n. ok (take n c.contents)) (sym e))
      by_length (suc n) e =
          rw (is_empty-pos c (omega arith))
            (persist_lem c (omega (arith, s.1)) s.2 (omega (arith, room x.segment, s.1)))

  left_loop_lem :
      (head x : Address) (xs : List Address)
      → All (IsSound len) memory (x ∷ xs)
      → Chain memory (x ∷ xs) head
      → Apart head.segment xs
      → left_loop (suc (length xs)) memory head.segment x.segment ≡ ok (texts memory (x ∷ xs))
  unfolding left_loop
  left_loop_lem head x [] (s, ss) (n, i, h) a = rw (round_text x s, i, ==-refl head.segment)
  left_loop_lem head x (y ∷ xs) (s, ss) (n, i, h) (k, a) =
      rw (round_text x s, i, ==-ne y.segment head.segment k, left_loop_lem head y xs ss h a)

module _ (shmget : ℕ → Option ℕ) (fulls frees : List Address) (s : RingLog)
    (r : IsRing shmget fulls frees s) where
  -- Where the ring is in order, the tool ends, after as many rounds as the ring has cells, and writes
  -- the texts of the cells, from the one that was to be persisted next.
  pub left_data-texts : left_data (length (fulls ++ frees)) s ≡ ok (texts s.memory (fulls ++ frees))
  unfolding left_data
  left_data-texts =
      let (rest, e) = r.base.head in
      let loop =
        left_loop_lem s.memory s.one_buff_len r.base.small r.base.room s.prst_buf s.prst_buf rest
          (subst (All (IsSound s.one_buff_len) s.memory) e r.base.sound)
          (subst (λ o. Chain s.memory o s.prst_buf) e r.chain)
          (subst Distinct e r.base.distinct).0 in
      rw r.prst_id (
        subst
          (λ o.
            left_loop (length o) s.memory s.prst_buf.segment s.prst_buf.segment
            ≡ ok (texts s.memory o))
          (sym e) loop)
