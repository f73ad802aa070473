-- ===== src/Timer/Ticks.antt =====
-- Tick (http/timer.cpp).
use mathlib.Core.List.{append-nil, append_assoc}
use mathlib.Core.Path.{subst}
use wslyh.Base.{
  Bool, Bool-cases, List, Mem, Nodup, Succeeds, Succeeds-value, Succeeds-weaken, [], arith, false,
  if◌then◌else◌, inl, inr, length, ltb, ok, refl, suc, succeeds, sym, true, zero, ℕ, ◌++◌, ◌+◌, ◌<◌,
  ◌==◌, ◌↔◌, ◌∙◌, ◌∷◌, ◌≡◌, ◌≤◌,
}
use wslyh.Timer.{TimerHeap, expire, peek, tick, tick_loop}
use wslyh.Timer.Order.{IsQueued, IsValid, SameTimers}
use wslyh.Timer.Remove.{Popped, pop_timer-Popped, root_least}

-- The client data of those timers that have a callback, in order.
abbrev pub clients_of : TimerHeap → List ℕ → List ℕ
clients_of h [] = []
clients_of h (u ∷ us) =
    if (h.timers u).has_callback
    then (h.timers u).client_data ∷ clients_of h us
    else clients_of h us

-- Timers of the heap that expire by `now`, in the order of their expiry, from `lo` on.
abbrev pub Due : TimerHeap → ℕ → ℕ → List ℕ → Type 0
Due h now lo [] = Unit
Due h now lo (u ∷ us) =
    IsQueued h u × (lo ≤ expire h u) × (expire h u ≤ now) × Due h now (expire h u) us

-- What Tick at time `now` leaves, when `out` lists the callbacks made before.
pub record Ticked (now : ℕ) (h : TimerHeap) (out : List ℕ) (r : TimerHeap × List ℕ) : Type 0 where
  pub valid : IsValid r.0
  pub same_timers : SameTimers r.0 h
  pub queued : (u : ℕ) → IsQueued r.0 u ↔ (IsQueued h u × (now < expire h u))
  pub gone : List ℕ
  pub due : Due h now 0 gone
  pub once : Nodup gone
  pub gone_iff : (u : ℕ) → Mem u gone ↔ (IsQueued h u × (expire h u ≤ now))
  pub all_gone : r.0.cur_num + length gone ≡ h.cur_num
  pub called : r.1 ≡ out ++ clients_of h gone

Due-from :
    (h : TimerHeap) (now lo : ℕ) (us : List ℕ)
    → ((u : ℕ) → IsQueued h u → lo ≤ expire h u)
    → Due h now 0 us
    → Due h now lo us
Due-from h now lo [] f d = tt
Due-from h now lo (u ∷ us) f d = (d.0, f u d.0, d.2, d.3)

module _ (h g : TimerHeap) (same : SameTimers g h) where
  Due-before :
      (now lo : ℕ) (us : List ℕ)
      → ((u : ℕ) → IsQueued g u → IsQueued h u)
      → Due g now lo us
      → Due h now lo us
  Due-before now lo [] f d = tt
  Due-before now lo (u ∷ us) f d = (
    f u d.0,
    ground (arith, same u),
    ground (arith, same u),
    rw (same u).0 at (Due-before now (expire g u) us f d.3),
  )

  clients_of-before : (us : List ℕ) → clients_of g us ≡ clients_of h us
  clients_of-before [] = refl
  clients_of-before (u ∷ us) = ground (arith, same u, clients_of-before us)

none-Ticked :
    (now : ℕ) (h : TimerHeap) (out : List ℕ)
    → IsValid h
    → ((u : ℕ) → IsQueued h u → now < expire h u)
    → Ticked now h out (h, out)
none-Ticked now h out v late = record {
  valid = v;
  same_timers = λ t. (refl, refl, refl);
  queued = λ u. (λ q. (q, late u q), λ x. x.0);
  gone = [];
  due = tt;
  once = tt;
  gone_iff = λ u. (λ m. absurd m, λ x. absurd (omega (arith, x.1, late u x.0)));
  all_gone = omega arith;
  called = sym (append-nil out);
}

module _ (now : ℕ) (h : TimerHeap) (out : List ℕ) (v : IsValid h) (some_left : 0 < h.cur_num)
    (old : expire h (h.slots 0) ≤ now) where
  abbrev top : ℕ
  top = h.slots 0

  abbrev out' : List ℕ
  out' = if (h.timers top).has_callback then out ++ (h.timers top).client_data ∷ [] else out

  top-IsQueued : IsQueued h top
  top-IsQueued = rw (v.located 0 some_left) (some_left, refl)

  Popped-Ticked :
      {h' : TimerHeap} {r : TimerHeap × List ℕ}
      → Popped h h'
      → Ticked now h' out' r
      → Ticked now h out r
  Popped-Ticked {h' = h'} {r = r} p t = record {
    valid = t.valid;
    same_timers = λ u. ground (arith, t.same_timers u, p.same_timers u);
    queued = λ u. (
      λ q. ground (arith, (t.queued u).0 q, p.queued u, p.same_timers u),
      λ q. (t.queued u).1 (ground (arith, p.queued u, p.same_timers u)),
    );
    gone = top ∷ t.gone;
    due = (
      top-IsQueued,
      omega arith,
      old,
      Due-before h h' p.same_timers now (expire h top) t.gone (λ u q. ((p.queued u).0 q).0)
          (Due-from h' now (expire h top) t.gone
            (λ u q. rw (p.same_timers u).0 (root_least h u v ((p.queued u).0 q).0)) t.due),
    );
    once = (λ m. absurd (((p.queued top).0 ((t.gone_iff top).0 m).0).1 refl), t.once);
    gone_iff = λ u. (top_or u, first_or u);
    all_gone = omega (arith, t.all_gone, p.one_less);
    called =
        t.called
        ∙ rw (clients_of-before h h' p.same_timers t.gone) (appended ((h.timers top).has_callback));
  }
    where
      top_or : (u : ℕ) → Mem u (top ∷ t.gone) → IsQueued h u × (expire h u ≤ now)
      top_or u (inl e) = (
        subst (λ k. IsQueued h k) (sym e) top-IsQueued,
        subst (λ k. expire h k ≤ now) (sym e) old,
      )
      top_or u (inr m) =
          let (q, le) = (t.gone_iff u).0 m in
          (((p.queued u).0 q).0, subst (λ k. k ≤ now) (p.same_timers u).0 le)

      first_or : (u : ℕ) → IsQueued h u × (expire h u ≤ now) → Mem u (top ∷ t.gone)
      first_or u x = elim (Bool-cases (u == top)) [
        | inl same ↦ inl (ground arith)
        | inr other ↦ inr (
            (t.gone_iff u).1 (
              (p.queued u).1 (x.0, ground arith),
              subst (λ k. k ≤ now) (sym (p.same_timers u).0) x.1,
            ))
      ]

      appended :
          (b : Bool)
          → (if b then out ++ (h.timers top).client_data ∷ [] else out) ++ clients_of h t.gone
            ≡ out
              ++ (if b
                  then (h.timers top).client_data ∷ clients_of h t.gone
                  else clients_of h t.gone)
      appended true = append_assoc out ((h.timers top).client_data ∷ []) (clients_of h t.gone)
      appended false = refl

pub peek-root : (h : TimerHeap) → IsValid h → peek h 0 ≡ ok (h.slots 0)
unfolding peek
peek-root h v = ground (arith, v.roomy)

tick_loop-Ticked :
    (k now : ℕ) (h : TimerHeap) (out : List ℕ)
    → h.cur_num < k
    → IsValid h
    → Succeeds (Ticked now h out) (tick_loop k now h out)
unfolding tick_loop
tick_loop-Ticked zero now h out f v = absurd (omega arith)
tick_loop-Ticked (suc k) now h out f v = elim (Bool-cases (h.cur_num == 0)) [
  | inl none_left ↦ rw none_left (succeeds (none-Ticked now h out v (λ u q. absurd (ground arith))))
  | inr more ↦
      let some_left : 0 < h.cur_num = ground arith in
      let real : (h.slots 0 == 0) ≡ false = ground (arith, v.present 0 some_left) in
      rw (more, peek-root h v)
        (elim (Bool-cases (ltb now (expire h (h.slots 0)))) [
          | inl late ↦
              rw (real, late)
                (succeeds (none-Ticked now h out v (λ u q. ground (arith, root_least h u v q))))
          | inr old ↦
              let (h', popped, p) = Succeeds-value (pop_timer-Popped h v some_left) in
              rw (real, old, popped)
                (Succeeds-weaken (tick_loop-Ticked k now h' _ (omega (arith, p.one_less)) p.valid)
                  (λ r t. Popped-Ticked now h out v some_left (ground arith) p t))
        ])
]

-- Tick at time `now` on a valid heap removes exactly the timers that expire by then, each once and in
-- the order of their expiry, calls the callback of each of them that has one, once, in that order and
-- on its client data, and leaves a valid heap of the others; it ends without a fault.
pub tick-Ticked : (now : ℕ) (h : TimerHeap) → IsValid h → Succeeds (Ticked now h []) (tick now h)
unfolding tick
tick-Ticked now h v = rw (peek-root h v) (tick_loop-Ticked (h.cur_num + 1) now h [] (omega arith) v)
