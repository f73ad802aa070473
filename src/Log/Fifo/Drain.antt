-- ===== src/Log/Fifo/Drain.antt =====
-- PersistLog brings all that was accepted into the file, once no more is appended.
use wslyh.Log.Fifo.Reset.{IsReset}
use wslyh.Log.Fifo.Order.{Holds, Reach-Holds}
use wslyh.Base.{
  Bool, Bytes, List, Option, Outcome, [], ap, append-nil, append_assoc, arith, length,
  length-append, length-take, refl, some, suc, sym, zero, ℕ, ◌++◌, ◌<◌, ◌∙◌, ◌∷◌, ◌≡◌, ◌≤◌,
}
use wslyh.Log.Cell.{Address, text_of}
use wslyh.Log.Ring.{RingLog, cell, claim}
use wslyh.Log.Ring.Chain.{All, Store, first, texts}
use wslyh.Log.Ring.Invariant.{IsBlank, IsRing}
use wslyh.Log.Ring.Persist.{Claimed, claim-Claimed, release-IsRing}
use wslyh.Log.Fifo.{Phase, Reach, Step, System}
use mathlib.Core.Path.{subst}

module _ (shmget : ℕ → Option ℕ) where
  -- one round of PersistLog from a ring whose first cell is full
  after_round :
      (fulls frees : List Address) (s : System)
      → s.phase ≡ Phase.writing
      → IsRing shmget (s.log.prst_buf ∷ fulls) frees s.log
      → (t : RingLog) × Reach shmget s (record s {
        log = t;
        phase = Phase.waiting;
        file = s.file ++ text_of (cell s.log s.log.prst_buf);
      })
        × IsRing shmget fulls (frees ++ s.log.prst_buf ∷ []) t
        × (texts t.memory (fulls ++ (frees ++ s.log.prst_buf ∷ []))
            ≡ texts s.log.memory (fulls ++ frees))
  after_round fulls frees s p r =
      let (t, e, q, w, x) = release-IsRing shmget fulls frees s.log r in
      (
        t,
        Reach.next
            (Reach.next Reach.here (Step.write_file (text_of (cell s.log s.log.prst_buf)) p w))
            (Step.free_cell t refl e),
        q,
        x,
      )

  texts-blank : (m : Store) (frees : List Address) → All IsBlank m frees → texts m frees ≡ []
  texts-blank m [] b = refl
  texts-blank m (c ∷ rest) (z, b) = rw (z, texts-blank m rest b) refl

  -- a ring whose first cell has no text has none
  texts-idle :
      (fulls frees : List Address) (s : RingLog)
      → IsRing shmget fulls frees s
      → (cell s s.prst_buf).cur_length ≡ 0
      → texts s.memory (fulls ++ frees) ≡ []
  texts-idle (f ∷ fs) frees s r z =
      let e : f ≡ s.prst_buf = ap (λ o. first o f) r.base.head.1 in
      let l : 0 < (cell s s.prst_buf).cur_length =
        subst (λ a. 0 < (cell s a).cur_length) e r.full.0.1 in
      absurd (omega arith)
  texts-idle [] [] s r z = refl
  texts-idle [] (c ∷ rest) s r z =
      let e : c ≡ s.prst_buf = ap (λ o. first o c) r.base.head.1 in
      let z' : (cell s c).cur_length ≡ 0 = ap (λ a. (cell s a).cur_length) e ∙ z in
      rw (z', texts-blank s.memory rest r.blank) refl

  abbrev Drained : System → Bytes → Type 0
  Drained s text =
      (t : System) × Reach shmget s t
      × (t.phase ≡ Phase.waiting)
      × (t.accepted ≡ s.accepted)
      × (t.file ≡ s.file ++ text)

  length_text :
      (fulls frees : List Address) (s : RingLog)
      → IsRing shmget (s.prst_buf ∷ fulls) frees s
      → 0 < length (text_of (cell s s.prst_buf))
  length_text fulls frees s r =
      let c = cell s s.prst_buf in
      let sound = r.base.sound.0 in
      omega (
        arith,
        length-take c.cur_length c.contents,
        r.full.0.1,
        sound.1,
        sound.2,
        r.base.room s.prst_buf.segment,
      )

  after : {s t u : System} → Reach shmget s t → Reach shmget t u → Reach shmget s u
  after p Reach.here = p
  after p (Reach.next q st) = Reach.next (after p q) st

  nothing_left : (n : Bytes) → length n ≤ 0 → n ≡ []
  nothing_left [] l = refl
  nothing_left (x ∷ xs) l = absurd (omega arith)

  already : (s : System) (text : Bytes) → s.phase ≡ Phase.waiting → text ≡ [] → Drained s text
  already s text p e =
      (s, Reach.here, p, refl, sym (append-nil s.file) ∙ ap (λ b. s.file ++ b) (sym e))

  -- what a round of PersistLog does: nothing, or it brings the text of a cell into the file
  data Round (s : System) (text : Bytes) : Type 0 where
    idle : text ≡ [] → Round s text
    done :
        (u : RingLog) (first_text : Bytes) (fulls frees : List Address)
        → Reach shmget s (record s { log = u; phase = Phase.waiting; file = s.file ++ first_text })
        → IsRing shmget fulls frees u
        → 0 < length first_text
        → text ≡ first_text ++ texts u.memory (fulls ++ frees)
        → Round s text

  round :
      (s : System)
      → s.phase ≡ Phase.waiting
      → (fulls frees : List Address) → IsRing shmget fulls frees s.log
      → Round s (texts s.log.memory (fulls ++ frees))
  round s p fulls frees r = by_claim (claim s.log) refl (claim-Claimed shmget fulls frees s.log r)
    where
      text : Bytes
      text = texts s.log.memory (fulls ++ frees)

      by_claim :
          (o : Outcome (RingLog × Bool))
          → claim s.log ≡ o
          → Claimed shmget s.log text o
          → Round s text
      by_claim _ e (Claimed.idle z) = idle (texts-idle fulls frees s.log r z)
      by_claim _ e (Claimed.taken t fulls' frees' q same x) =
          let q' : IsRing shmget (t.prst_buf ∷ fulls') frees' t =
            subst (λ a. IsRing shmget (a ∷ fulls') frees' t) (sym same) q in
          let s1 : System = record s { log = t; phase = Phase.writing } in
          let (u, reached, r', x') = after_round fulls' frees' s1 refl q' in
          let first_text = text_of (cell t t.prst_buf) in
          done u first_text fulls' (frees' ++ t.prst_buf ∷ [])
            (after (Reach.next Reach.here (Step.take_cell t p e)) reached) r'
            (length_text fulls' frees' t q')
            (sym x
              ∙ ap (λ a. texts t.memory (a ∷ (fulls' ++ frees'))) (sym same)
              ∙ ap (λ b. first_text ++ b) (sym x'))

  drain :
      (n : ℕ) (s : System)
      → s.phase ≡ Phase.waiting
      → (fulls frees : List Address) → IsRing shmget fulls frees s.log
      → length (texts s.log.memory (fulls ++ frees)) ≤ n
      → Drained s (texts s.log.memory (fulls ++ frees))
  drain zero s p fulls frees r l =
      already s (texts s.log.memory (fulls ++ frees)) p
        (nothing_left (texts s.log.memory (fulls ++ frees)) l)
  drain (suc n) s p fulls frees r l =
      let text = texts s.log.memory (fulls ++ frees) in
      elim (round s p fulls frees r) [
        | idle z ↦ already s text p z
        | done u first_text fulls' frees' reached r' pos_length parts ↦
            let left = texts u.memory (fulls' ++ frees') in
            let shorter : length left ≤ n = omega (
              arith,
              ap (λ (b : Bytes). length b) parts,
              length-append first_text left,
              pos_length,
              l,
            ) in
            let (v, onward, w, a, f) =
              drain n (record s { log = u; phase = Phase.waiting; file = s.file ++ first_text })
                refl fulls' frees' r' shorter in
            (
              v,
              after reached onward,
              w,
              a,
              f ∙ append_assoc s.file first_text left ∙ ap (λ b. s.file ++ b) (sym parts),
            )
      ]

  -- PersistLog gets through to its first Lock from wherever it is.
  module _ (injective : (j k i : ℕ) → shmget j ≡ some i → shmget k ≡ some i → j ≡ k) where
    to_waiting :
        (s : System) (ph : Phase)
        → s.phase ≡ ph
        → Holds shmget injective ph s
        → (t : System) × Reach shmget s t × (t.phase ≡ Phase.waiting) × (t.accepted ≡ s.accepted)
    to_waiting s Phase.waiting p h = (s, Reach.here, p, refl)
    to_waiting s Phase.writing p h =
        (record s { phase = Phase.waiting }, Reach.next Reach.here (Step.give_up p), refl, refl)
    to_waiting s Phase.written p (fulls, frees, r, e) =
        let (t, q, r', w, x) = release-IsRing shmget fulls frees s.log r in
        (
          record s { log = t; phase = Phase.waiting },
          Reach.next Reach.here (Step.free_cell t p q),
          refl,
          refl,
        )

    pub drained :
        (s : System)
        → IsReset s
        → Holds shmget injective s.phase s
        → (t : System) × Reach shmget s t × (t.file ≡ s.accepted) × (t.accepted ≡ s.accepted)
    drained s z h =
        let (t, reached, p, a) = to_waiting s s.phase refl h in
        let (fulls, frees, r, e) =
          subst (λ q. Holds shmget injective q t) p (Reach-Holds shmget injective reached z h) in
        let (u, onward, w, b, f) =
          drain (length (texts t.log.memory (fulls ++ frees))) t p fulls frees r (omega arith) in
        (u, after reached onward, f ∙ sym e ∙ a, b ∙ a)
