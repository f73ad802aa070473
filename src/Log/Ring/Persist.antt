-- ===== src/Log/Ring/Persist.antt =====
-- What the parts of PersistLog under the lock do to the ring.
use mathlib.Core.Path.{subst}
use wslyh.Base.{
  Bool, Bytes, List, Option, Outcome, [], ap, append-nil, append_assoc, arith, false, length,
  length-splice, ok, refl, replicate, some, splice, suc, sym, true, update, zero, ℕ, ◌++◌, ◌<◌, ◌^◌,
  ◌∙◌, ◌∷◌, ◌≡◌, ◌≤◌,
}
use wslyh.Log.Cell.{
  Address, BufferCell, BufferStatus, clear_buffer_lem, is_empty-pos, is_empty-zero, is_free-free,
  is_free-full, persist, persist_lem, text_of,
}
use wslyh.Log.Ring.{RingLog, cell, claim, release, same_address, set_full, with_cell}
use wslyh.Log.Ring.Chain.{
  All-apart, All-append, All-others_snoc, Apart, Apart-left, Apart-others, Apart-right, Chain,
  Chain-keep, first, first-behind, others, texts, texts-apart, texts-append, update_eq,
}
use wslyh.Log.Ring.Filled.{IsRing-filled, marked, next-marked, texts-marked}
use wslyh.Log.Ring.Invariant.{
  Chain-rotate, IsBase, IsBase-prst, IsBase-rotate, IsBase-update, IsBlank, IsFree, IsFull, IsRing,
  IsSound,
}

same_address_refl : (a : Address) → same_address a a ≡ true
unfolding same_address
same_address_refl a = ground arith

claim-blank : (s : RingLog) → (cell s s.prst_buf).cur_length ≡ 0 → claim s ≡ ok (s, false)
unfolding claim
claim-blank s e = rw (is_empty-zero (cell s s.prst_buf) e)

claim-full :
    (s : RingLog)
    → 0 < (cell s s.prst_buf).cur_length
    → (cell s s.prst_buf).status ≡ BufferStatus.full
    → claim s ≡ ok (s, true)
unfolding claim
claim-full s l e = rw (is_empty-pos (cell s s.prst_buf) l, is_free-full (cell s s.prst_buf) e)

claim-free :
    (s : RingLog) (next : Address)
    → 0 < (cell s s.prst_buf).cur_length
    → (cell s s.prst_buf).status ≡ BufferStatus.free
    → s.cur_buf ≡ s.prst_buf
    → (cell (set_full s.prst_buf s) s.prst_buf).next ≡ some next
    → claim s ≡ ok (record (set_full s.prst_buf s) { cur_buf = next }, true)
unfolding claim
claim-free s next l e c n = rw (
  c,
  is_empty-pos (cell s s.prst_buf) l,
  is_free-free (cell s s.prst_buf) e,
  same_address_refl s.prst_buf,
  n,
)

module _ (shmget : ℕ → Option ℕ) where
  -- What PersistLog takes: nothing where the cell has no text; else the cell is full then.
  pub data Claimed (s : RingLog) (text : Bytes) : Outcome (RingLog × Bool) → Type 0 where
    idle : (cell s s.prst_buf).cur_length ≡ 0 → Claimed s text (ok (s, false))
    taken :
        (t : RingLog) (fulls frees : List Address)
        → IsRing shmget (s.prst_buf ∷ fulls) frees t
        → t.prst_buf ≡ s.prst_buf
        → texts t.memory (s.prst_buf ∷ (fulls ++ frees)) ≡ text
        → Claimed s text (ok (t, true))

  pub claim-Claimed :
      (fulls frees : List Address) (s : RingLog)
      → IsRing shmget fulls frees s
      → Claimed s (texts s.memory (fulls ++ frees)) (claim s)
  claim-Claimed [] [] s r =
      let none_left : 0 ≡ suc (length r.base.head.0) =
        ap (λ (o : List Address). length o) r.base.head.1 in
      absurd (omega arith)
  claim-Claimed (f ∷ fs) frees s r =
      let e : f ≡ s.prst_buf = ap (λ o. first o f) r.base.head.1 in
      let is_full : IsFull s.prst_buf (cell s s.prst_buf) =
        subst (λ a. IsFull a (cell s a)) e r.full.0 in
      subst (Claimed s (texts s.memory (f ∷ (fs ++ frees))))
        (sym (claim-full s is_full.1 is_full.0))
        (taken s fs frees (subst (λ a. IsRing shmget (a ∷ fs) frees s) e r) refl
          (ap (λ a. texts s.memory (a ∷ (fs ++ frees))) (sym e)))
  claim-Claimed [] (c ∷ rest) s r =
      let e : c ≡ s.prst_buf = ap (λ o. first o c) r.base.head.1 in
      subst (λ a. Claimed s (texts s.memory (a ∷ rest)) (claim s)) (sym e)
        (by_length (cell s s.prst_buf).cur_length refl
          (subst (λ a. IsRing shmget [] (a ∷ rest) s) e r))
    where
      by_length :
          (n : ℕ)
          → (cell s s.prst_buf).cur_length ≡ n
          → IsRing shmget [] (s.prst_buf ∷ rest) s
          → Claimed s (texts s.memory (s.prst_buf ∷ rest)) (claim s)
      by_length zero l q =
          subst (Claimed s (texts s.memory (s.prst_buf ∷ rest))) (sym (claim-blank s l)) (idle l)
      by_length (suc n) l q =
          let some_text : 0 < (cell s s.prst_buf).cur_length = omega arith in
          subst (Claimed s (texts s.memory (s.prst_buf ∷ rest)))
            (sym (
              claim-free s (first rest s.prst_buf) some_text q.free.0 q.cur
                (next-marked shmget [] rest s.prst_buf s q)))
            (taken
              (record (marked shmget [] rest s.prst_buf s q) { cur_buf = first rest s.prst_buf }) []
              rest (IsRing-filled shmget [] rest s.prst_buf s q some_text) refl
              (texts-marked shmget [] rest s.prst_buf s q))

  -- The persisted cell given back: the ring is that from the next cell on.
  pub release-IsRing :
      (fulls frees : List Address) (s : RingLog)
      → IsRing shmget (s.prst_buf ∷ fulls) frees s
      → (t : RingLog) × (release s ≡ ok t)
        × IsRing shmget fulls (frees ++ s.prst_buf ∷ []) t
        × (persist (cell s s.prst_buf).cur_length (cell s s.prst_buf)
            ≡ ok (text_of (cell s s.prst_buf)))
        × (texts t.memory (fulls ++ (frees ++ s.prst_buf ∷ [])) ≡ texts s.memory (fulls ++ frees))
  unfolding release
  release-IsRing fulls frees s r =
      let p = s.prst_buf in
      let c = cell s p in
      let b = r.base in
      let sound : IsSound s.one_buff_len p c =
        IsBase-prst shmget s.memory s.one_buff_len s.buff_cnt p (p ∷ (fulls ++ frees)) b in
      let room : c.tol_length ≤ length c.contents = omega (arith, b.room p.segment, sound.1) in
      let small : c.tol_length < 2 ^ 32 = omega (arith, b.small, sound.1) in
      let c' : BufferCell = record c {
        cur_length = 0;
        contents = splice c.contents 0 (replicate c.tol_length 0);
        status = BufferStatus.free;
      } in
      let m' = update s.memory p.segment c' in
      let next = first (fulls ++ frees) p in
      let regroup : (fulls ++ frees) ++ p ∷ [] ≡ fulls ++ (frees ++ p ∷ []) =
        append_assoc fulls frees (p ∷ []) in
      let kept : IsBase shmget m' s.one_buff_len s.buff_cnt p (p ∷ (fulls ++ frees)) =
        IsBase-update shmget s.memory s.one_buff_len s.buff_cnt p (p ∷ (fulls ++ frees)) b p.segment
          c' refl refl (λ h. omega arith) (length-splice c.contents 0 (replicate c.tol_length 0)) in
      let rotated : IsBase shmget m' s.one_buff_len s.buff_cnt next ((fulls ++ frees) ++ p ∷ []) =
        IsBase-rotate shmget m' s.one_buff_len s.buff_cnt p (fulls ++ frees) kept in
      let chain' : Chain m' (p ∷ (fulls ++ frees)) p =
        Chain-keep s.memory p.segment c' (p ∷ (fulls ++ frees)) p refl refl r.chain in
      let apart : Apart p.segment (fulls ++ frees) = b.distinct.0 in
      let next_id : (m' next.segment).shm_id ≡ next.segment =
        (IsBase-prst shmget m' s.one_buff_len s.buff_cnt next ((fulls ++ frees) ++ p ∷ [])
          rotated).0 in
      let cleared : cell (with_cell s p c') p ≡ c' = update_eq s.memory p.segment c' in
      let t : RingLog = record (with_cell s p c') {
        prst_buf = next;
        prst_shm_id = (m' next.segment).shm_id;
      } in
      (
        t,
        rw (clear_buffer_lem c small sound.2 room, chain'.0),
        record {
          base = subst (IsBase shmget m' s.one_buff_len s.buff_cnt next) regroup rotated;
          chain = subst (λ o. Chain m' o next) regroup (Chain-rotate m' p (fulls ++ frees) chain');
          cur = r.cur ∙ first-behind frees fulls p p next;
          full =
              All-apart IsFull s.memory p.segment c' fulls (Apart-left p.segment fulls frees apart)
                r.full.1;
          free =
              All-append IsFree m' frees (p ∷ [])
                (All-apart IsFree s.memory p.segment c' frees
                  (Apart-right p.segment fulls frees apart) r.free)
                (ap (λ d. d.status) cleared, tt);
          blank =
              All-others_snoc IsBlank m' frees p
                (All-apart IsBlank s.memory p.segment c' (others frees)
                  (Apart-others p.segment frees (Apart-right p.segment fulls frees apart)) r.blank)
                (ap (λ d. d.cur_length) cleared);
          prst_id = next_id;
        },
        persist_lem c small sound.2 room,
        ap (texts m') (sym regroup)
            ∙ texts-append m' (fulls ++ frees) (p ∷ [])
            ∙ ap (λ d. texts m' (fulls ++ frees) ++ (text_of d ++ [])) cleared
            ∙ append-nil (texts m' (fulls ++ frees))
            ∙ texts-apart s.memory p.segment c' (fulls ++ frees) apart,
      )
