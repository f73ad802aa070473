-- ===== src/Pool/Queue.antt =====
-- The queue of the pool: its length, its order, and that it is worked off.
use wslyh.Base.{
  List, Option, [], ap, append-nil, append_assoc, arith, false, length, length-append, none, refl,
  some, sym, ℕ, ◌++◌, ◌+◌, ◌∙◌, ◌∷◌, ◌≡◌, ◌≤◌,
}
use wslyh.Pool.{Pool, Reach, Step, idle_pool, too_much}

-- the task whose HttpParse runs, as a list
abbrev pub in_work : Option ℕ → List ℕ
in_work none = []
in_work (some task) = task ∷ []

module _ (callers : ℕ) where
  -- the length of the queue, with the tasks about to be pushed
  IsBounded : Pool → Type 0
  IsBounded s = length s.tasks + length s.checked ≤ 99 + callers

  tested : (tasks : List ℕ) → too_much tasks ≡ false → length tasks ≤ 99
  unfolding too_much
  tested tasks e = ground arith

  Step-IsBounded : {s t : Pool} → Step callers s t → IsBounded s → IsBounded t
  unfolding IsBounded
  Step-IsBounded (Step.reject task l e) h = h
  Step-IsBounded {s} (Step.check task l e) h = omega (arith, tested s.tasks e)
  Step-IsBounded {s} (Step.push before after task e c) h = omega (
    arith,
    length-append before (task ∷ after),
    length-append before after,
    length-append s.tasks (task ∷ []),
    ap (λ (o : List ℕ). length o) c,
    h,
  )
  Step-IsBounded {s} (Step.take task rest e q) h = omega (arith, ap (λ (o : List ℕ). length o) q, h)
  Step-IsBounded (Step.finish task e) h = h

  Reach-IsBounded : {s t : Pool} → Reach callers s t → IsBounded s → IsBounded t
  Reach-IsBounded Reach.here h = h
  Reach-IsBounded (Reach.next r st) h = Step-IsBounded st (Reach-IsBounded r h)

  -- With at most `callers` threads in Append at once, the queue never has more than 99 + callers
  -- tasks: 100 for the one thread of the main loop.
  pub tasks-bounded : {t : Pool} → Reach callers idle_pool t → length t.tasks ≤ 99 + callers
  unfolding IsBounded
  tasks-bounded r = let h = Reach-IsBounded r (omega arith) in omega (arith, h)

  abbrev IsOrdered : Pool → Type 0
  IsOrdered s = s.pushed ≡ s.parsed ++ (in_work s.running ++ s.tasks)

  Step-IsOrdered : {s t : Pool} → Step callers s t → IsOrdered s → IsOrdered t
  Step-IsOrdered (Step.reject task l e) h = h
  Step-IsOrdered (Step.check task l e) h = h
  Step-IsOrdered {s} (Step.push before after task e c) h =
      ap (λ p. p ++ task ∷ []) h
      ∙ append_assoc s.parsed (in_work s.running ++ s.tasks) (task ∷ [])
      ∙ ap (λ p. s.parsed ++ p) (append_assoc (in_work s.running) s.tasks (task ∷ []))
  Step-IsOrdered {s} (Step.take task rest e q) h =
      h ∙ ap (λ w. s.parsed ++ (in_work w ++ s.tasks)) e ∙ ap (λ p. s.parsed ++ p) q
  Step-IsOrdered {s} (Step.finish task e) h =
      h
      ∙ ap (λ w. s.parsed ++ (in_work w ++ s.tasks)) e
      ∙ sym (append_assoc s.parsed (task ∷ []) s.tasks)

  Reach-IsOrdered : {s t : Pool} → Reach callers s t → IsOrdered s → IsOrdered t
  Reach-IsOrdered Reach.here h = h
  Reach-IsOrdered (Reach.next r st) h = Step-IsOrdered st (Reach-IsOrdered r h)

  after : {s t u : Pool} → Reach callers s t → Reach callers t u → Reach callers s u
  after p Reach.here = p
  after p (Reach.next q st) = Reach.next (after p q) st

  Emptied : Pool → Type 0
  Emptied s =
      (t : Pool) × Reach callers s t × (t.tasks ≡ []) × (t.running ≡ none) × (t.pushed ≡ s.pushed)

  work_off : (tasks : List ℕ) (s : Pool) → s.running ≡ none → s.tasks ≡ tasks → Emptied s
  unfolding Emptied
  work_off [] s r e = (s, Reach.here, e, r, refl)
  work_off (x ∷ xs) s r e =
      let s1 : Pool = record s { tasks = xs; running = some x } in
      let s2 : Pool = record s1 { running = none; parsed = s.parsed ++ x ∷ [] } in
      let (t, reached, a, b, c) = work_off xs s2 refl refl in
      (
        t,
        after (Reach.next (Reach.next Reach.here (Step.take x xs r e)) (Step.finish x refl))
            reached,
        a,
        b,
        c,
      )

  end_work : (s : Pool) (o : Option ℕ) → s.running ≡ o → Emptied s
  unfolding Emptied
  end_work s none e = work_off s.tasks s e refl
  end_work s (some x) e =
      let s1 : Pool = record s { running = none; parsed = s.parsed ++ x ∷ [] } in
      let (t, reached, a, b, c) = work_off s.tasks s1 refl refl in
      (t, after (Reach.next Reach.here (Step.finish x e)) reached, a, b, c)

  -- Whatever the threads did: HttpParse was called for the tasks in the order in which they were
  -- pushed, once for each, and never for two at once; of the rest, at most one is being parsed, and
  -- the others wait in that order.
  pub parsed-pushed :
      {t : Pool} → Reach callers idle_pool t → t.pushed ≡ t.parsed ++ (in_work t.running ++ t.tasks)
  parsed-pushed r = Reach-IsOrdered r refl

  -- From every state that is reached, the workers can go on, where each HttpParse ends, until every
  -- task that was pushed is parsed, and no other is pushed meanwhile.
  pub pool-finishes :
      {s : Pool}
      → Reach callers idle_pool s
      → (t : Pool) × Reach callers s t × (t.parsed ≡ s.pushed) × (t.pushed ≡ s.pushed)
  unfolding Emptied
  pool-finishes {s} r =
      let (t, reached, a, b, c) = end_work s s.running refl in
      let h = parsed-pushed (after r reached) in
      (t, reached, sym (h ∙ rw (a, b) (append-nil t.parsed)) ∙ c, c)
