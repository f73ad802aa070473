-- ===== src/Log/Fifo/Order.antt =====
-- Nothing that the log accepts is lost, and nothing changes its place.
use wslyh.Log.Fifo.Reset.{IsReset, IsRing-reset, Step-IsReset}
use wslyh.Log.Ring.Persist.{Claimed, claim-Claimed, release-IsRing}
use wslyh.Base.{
  Bool, Bytes, List, Option, Outcome, [], ap, append-nil, append_assoc, drop, false, fault,
  if◌then◌else◌, length, ok, refl, some, sym, take, true, ℕ, ◌++◌, ◌<◌, ◌==◌, ◌∙◌, ◌∷◌, ◌≡◌, ◌≤◌,
}
use wslyh.Log.Cell.{Address, text_of}
use wslyh.Log.Ring.{RingLog, append_line, cell, claim}
use wslyh.Log.Ring.Chain.{texts}
use wslyh.Log.Ring.Invariant.{IsRing}
use wslyh.Log.Fifo.Taken.{goes_on}
use wslyh.Log.Fifo.{Phase, Reach, Step, System}
use mathlib.Core.Path.{subst}

cancel_left : (xs ys zs : Bytes) → xs ++ ys ≡ xs ++ zs → ys ≡ zs
cancel_left [] ys zs h = h
cancel_left (x ∷ xs) ys zs h = cancel_left xs ys zs (ap (λ (l : Bytes). drop 1 l) h)

module _ (shmget : ℕ → Option ℕ)
    (injective : (j k i : ℕ) → shmget j ≡ some i → shmget k ≡ some i → j ≡ k) where
  -- What is accepted is in the file, then in the ring. While PersistLog holds a cell, that is the
  -- first full one; once it is in the file, its text is not counted in the ring.
  abbrev pub Holds : Phase → System → Type 0
  Holds Phase.waiting s =
      (fulls : List Address) × (frees : List Address) × IsRing shmget fulls frees s.log
      × (s.accepted ≡ s.file ++ texts s.log.memory (fulls ++ frees))
  Holds Phase.writing s =
      (fulls : List Address) × (frees : List Address) × IsRing shmget (s.log.prst_buf ∷ fulls) frees
        s.log
      × (s.accepted ≡ s.file ++ texts s.log.memory (s.log.prst_buf ∷ (fulls ++ frees)))
  Holds Phase.written s =
      (fulls : List Address) × (frees : List Address) × IsRing shmget (s.log.prst_buf ∷ fulls) frees
        s.log
      × (s.accepted ≡ s.file ++ texts s.log.memory (fulls ++ frees))

  -- the reset of a call
  reset-Holds :
      (ph : Phase) (s : System)
      → Holds ph s
      → Holds ph (record s { log = record s.log { last_log_fail_time = 0 }; calling = true })
  reset-Holds Phase.waiting s (fulls, frees, r, h) =
      (fulls, frees, IsRing-reset shmget fulls frees s.log r, h)
  reset-Holds Phase.writing s (fulls, frees, r, h) =
      (fulls, frees, IsRing-reset shmget (s.log.prst_buf ∷ fulls) frees s.log r, h)
  reset-Holds Phase.written s (fulls, frees, r, h) =
      (fulls, frees, IsRing-reset shmget (s.log.prst_buf ∷ fulls) frees s.log r, h)

  more_accepted : (b : Bool) (x y : Bytes) → (if b then x ++ y else x) ≡ x ++ (if b then y else [])
  more_accepted true x y = refl
  more_accepted false x y = sym (append-nil x)

  -- what is accepted, where the ring's text goes from `old` to `new`
  grows :
      (b : Bool) (accepted file line old new : Bytes)
      → accepted ≡ file ++ old
      → new ≡ old ++ (if b then line else [])
      → (if b then accepted ++ line else accepted) ≡ file ++ new
  grows b accepted file line old new h x =
      more_accepted b accepted line
      ∙ ap (λ a. a ++ (if b then line else [])) h
      ∙ append_assoc file old (if b then line else [])
      ∙ ap (λ n. file ++ n) (sym x)

  -- a call of TryAppendLog
  append-Holds :
      (log_line : Bytes) (len cur_sec : ℕ)
      → len ≤ length log_line
      → 0 < cur_sec
      → (ph : Phase) (s : System) → len ≤ s.log.one_buff_len
      → s.log.last_log_fail_time ≡ 0
      → (t : RingLog) (flag : Bool) → append_line shmget log_line len cur_sec s.log ≡ ok (t, flag)
      → Holds ph s
      → Holds ph (record s {
        log = t;
        calling = false;
        accepted =
            if t.last_log_fail_time == 0 then s.accepted ++ take len log_line else s.accepted;
      })
  append-Holds log_line len cur_sec read later Phase.waiting s small z t flag e
        (fulls, frees, r, h) =
      let (more, frees', q, p, k, x) =
        goes_on shmget injective log_line len cur_sec read later s.log small z fulls frees t flag r
          e in
      (
        fulls ++ more,
        frees',
        q,
        grows (t.last_log_fail_time == 0) s.accepted s.file (take len log_line)
            (texts s.log.memory (fulls ++ frees)) (texts t.memory ((fulls ++ more) ++ frees')) h x,
      )
  append-Holds log_line len cur_sec read later Phase.writing s small z t flag e
        (fulls, frees, r, h) =
      let prst = s.log.prst_buf in
      let (more, frees', q, p, k, x) =
        goes_on shmget injective log_line len cur_sec read later s.log small z (prst ∷ fulls) frees
          t flag r e in
      (
        fulls ++ more,
        frees',
        subst (λ a. IsRing shmget (a ∷ (fulls ++ more)) frees' t) (sym p) q,
        grows (t.last_log_fail_time == 0) s.accepted s.file (take len log_line)
            (texts s.log.memory (prst ∷ (fulls ++ frees)))
            (texts t.memory (t.prst_buf ∷ ((fulls ++ more) ++ frees'))) h
            (ap (λ a. texts t.memory (a ∷ ((fulls ++ more) ++ frees'))) p ∙ x),
      )
  append-Holds log_line len cur_sec read later Phase.written s small z t flag e
        (fulls, frees, r, h) =
      let prst = s.log.prst_buf in
      let (more, frees', q, p, k, x) =
        goes_on shmget injective log_line len cur_sec read later s.log small z (prst ∷ fulls) frees
          t flag r e in
      let new = texts t.memory ((fulls ++ more) ++ frees') in
      let old = texts s.log.memory (fulls ++ frees) in
      let line : Bytes = if t.last_log_fail_time == 0 then take len log_line else [] in
      (
        fulls ++ more,
        frees',
        subst (λ a. IsRing shmget (a ∷ (fulls ++ more)) frees' t) (sym p) q,
        grows (t.last_log_fail_time == 0) s.accepted s.file (take len log_line) old new h (
            cancel_left (text_of (cell s.log prst)) new (old ++ line) (
              ap (λ b. b ++ new) (sym k.0)
              ∙ x
              ∙ append_assoc (text_of (cell s.log prst)) old line)),
      )

  taken_cell :
      (s t : RingLog) (text : Bytes) (o : Outcome (RingLog × Bool))
      → Claimed shmget s text o
      → o ≡ ok (t, true)
      → (fulls : List Address) × (frees : List Address) × IsRing shmget (t.prst_buf ∷ fulls) frees t
        × (texts t.memory (t.prst_buf ∷ (fulls ++ frees)) ≡ text)
  taken_cell s t text _ (Claimed.idle z) e = cc
  taken_cell s t text _ (Claimed.taken t' fulls frees r p x) e =
      subst
        (λ u.
          (fulls : List Address) × (frees : List Address) × IsRing shmget (u.prst_buf ∷ fulls) frees
            u
          × (texts u.memory (u.prst_buf ∷ (fulls ++ frees)) ≡ text))
        (ok_value t' e)
        (
          fulls,
          frees,
          subst (λ a. IsRing shmget (a ∷ fulls) frees t') (sym p) r,
          ap (λ a. texts t'.memory (a ∷ (fulls ++ frees))) p ∙ x,
        )
    where
      ok_value :
          (u : RingLog) → ◌≡◌ {A = Outcome (RingLog × Bool)} (ok (u, true)) (ok (t, true)) → u ≡ t
      ok_value u q = ap (λ (o : Outcome (RingLog × Bool)). elim o [ ok v ↦ v.0 | fault f ↦ u ]) q

  -- every step
  pub Step-Holds : {s t : System} → Step shmget s t → IsReset s → Holds s.phase s → Holds t.phase t
  Step-Holds {s} (Step.reset c) z h = reset-Holds s.phase s h
  Step-Holds {s} (Step.append log_line len cur_sec t flag c read small later e) z h =
      append-Holds log_line len cur_sec read later s.phase s small (z c) t flag e h
  Step-Holds (Step.find_nothing p e) z h = h
  Step-Holds {s} (Step.take_cell t p e) z h =
      let (fulls, frees, r, a) = subst (λ q. Holds q s) p h in
      let (fulls', frees', q, x) =
        taken_cell s.log t (texts s.log.memory (fulls ++ frees)) (claim s.log)
          (claim-Claimed shmget fulls frees s.log r) e in
      (fulls', frees', q, a ∙ ap (λ b. s.file ++ b) (sym x))
  Step-Holds {s} (Step.give_up p) z h =
      let (fulls, frees, r, a) = subst (λ q. Holds q s) p h in (s.log.prst_buf ∷ fulls, frees, r, a)
  Step-Holds {s} (Step.write_file text p e) z h =
      let (fulls, frees, r, a) = subst (λ q. Holds q s) p h in
      let T = text_of (cell s.log s.log.prst_buf) in
      let same : T ≡ text =
        ap (λ (o : Outcome Bytes). elim o [ ok b ↦ b | fault f ↦ T ])
          (sym (release-IsRing shmget fulls frees s.log r).3 ∙ e) in
      (
        fulls,
        frees,
        r,
        a
            ∙ sym (append_assoc s.file T (texts s.log.memory (fulls ++ frees)))
            ∙ ap (λ b. (s.file ++ b) ++ texts s.log.memory (fulls ++ frees)) same,
      )
  Step-Holds {s} (Step.free_cell t p e) z h =
      let (fulls, frees, r, a) = subst (λ q. Holds q s) p h in
      let (t', e', r', w, x) = release-IsRing shmget fulls frees s.log r in
      let same : t' ≡ t =
        ap (λ (o : Outcome RingLog). elim o [ ok b ↦ b | fault f ↦ t' ]) (sym e' ∙ e) in
      subst
        (λ u.
          (fulls : List Address) × (frees : List Address) × IsRing shmget fulls frees u
          × (s.accepted ≡ s.file ++ texts u.memory (fulls ++ frees)))
        same (fulls, frees ++ s.log.prst_buf ∷ [], r', a ∙ ap (λ b. s.file ++ b) (sym x))

  pub Reach-IsReset : {s t : System} → Reach shmget s t → IsReset s → IsReset t
  Reach-IsReset Reach.here z = z
  Reach-IsReset (Reach.next r st) z = Step-IsReset shmget st (Reach-IsReset r z)

  pub Reach-Holds :
      {s t : System} → Reach shmget s t → IsReset s → Holds s.phase s → Holds t.phase t
  Reach-Holds Reach.here z h = h
  Reach-Holds (Reach.next r st) z h = Step-Holds st (Reach-IsReset r z) (Reach-Holds r z h)
