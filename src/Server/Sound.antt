-- ===== src/Server/Sound.antt =====
-- What holds of the server between two cases of the event loop.
use wslyh.Base.{
  List, Mem, Nodup, add_ℕ, ap, arith, false, inl, inr, length, minus_ℕ, pos, refl, sym, true,
  update, ℕ, ℤ, ◌+◌, ◌<◌, ◌↔◌, ◌∙◌, ◌∷◌, ◌≡◌, ◌≢◌, ◌≤◌, ◌⊎◌,
}
use wslyh.Timer.{TimerHeap, expire}
use wslyh.Timer.Order.{IsQueued, IsValid}
use wslyh.Server.Opened.{Nodup-remove, length-remove, mem-remove, remove, remove-mem}
use mathlib.Core.Path.{subst}

-- The descriptor's timer is in the heap, with a callback for the descriptor, and is due within 15
-- seconds.
pub record Watches (now : ℕ) (h : TimerHeap) (timer_of : ℕ → ℕ) (fd : ℕ) : Type 0 where
  pub real : 0 < timer_of fd
  pub queued : IsQueued h (timer_of fd)
  pub due : expire h (timer_of fd) ≤ now + 15
  pub calls : (h.timers (timer_of fd)).has_callback ≡ true
  pub client : (h.timers (timer_of fd)).client_data ≡ fd

-- Every open descriptor is watched, each timer of the heap that has a callback is the one that watches
-- an open descriptor, and the count is that of the open descriptors, which are all different.
pub record IsSound (now : ℕ) (h : TimerHeap) (timer_of : ℕ → ℕ) (cnt : ℤ) (opened : List ℕ)
    : Type 0 where
  pub valid : IsValid h
  pub nodup : Nodup opened
  pub watched : (fd : ℕ) → Mem fd opened → Watches now h timer_of fd
  pub owned :
      (u : ℕ)
      → IsQueued h u
      → (h.timers u).has_callback ≡ true
      → Mem (h.timers u).client_data opened × (timer_of (h.timers u).client_data ≡ u)
  pub counted : cnt ≡ pos (length opened)

-- the timers have the same callbacks for the same descriptors
abbrev pub SameCalls : TimerHeap → TimerHeap → ℕ → Type 0
SameCalls g h u =
    ((g.timers u).has_callback ≡ (h.timers u).has_callback)
    × ((g.timers u).client_data ≡ (h.timers u).client_data)

module _ (now : ℕ) (h : TimerHeap) (timer_of : ℕ → ℕ) (cnt : ℤ) (opened : List ℕ)
    (s : IsSound now h timer_of cnt opened) where
  -- no descriptor is opened or closed
  module _ (now' : ℕ) (later : now ≤ now') (g : TimerHeap) (valid : IsValid g)
      (same : (u : ℕ) → SameCalls g h u)
      (there : (u : ℕ)
        → IsQueued h u
        → (h.timers u).has_callback ≡ true
        → IsQueued g u × ((expire g u ≤ expire h u) ⊎ (expire g u ≤ now' + 15)))
      (back : (u : ℕ) → IsQueued g u → IsQueued h u) where
    pub IsSound-kept : IsSound now' g timer_of cnt opened
    IsSound-kept = record {
      valid = valid;
      nodup = s.nodup;
      watched = λ fd m.
          let w = s.watched fd m in
          let (queued, due) = there (timer_of fd) w.queued w.calls in
          record {
            real = w.real;
            queued = queued;
            due = ground (arith, w.due);
            calls = (same (timer_of fd)).0 ∙ w.calls;
            client = (same (timer_of fd)).1 ∙ w.client;
          };
      owned = λ u q c.
          let e = (same u).1 in
          let (m, t) = s.owned u (back u q) (sym (same u).0 ∙ c) in
          (subst (λ k. Mem k opened) (sym e) m, ap timer_of e ∙ t);
      counted = s.counted;
    }

  -- A descriptor is closed: its timer leaves the heap, or loses its callback.
  module _ (fd : ℕ) (open_now : Mem fd opened) (g : TimerHeap) (valid : IsValid g)
      (same : (u : ℕ) → u ≢ timer_of fd → SameCalls g h u × (expire g u ≡ expire h u))
      (there : (u : ℕ) → u ≢ timer_of fd → (IsQueued g u ↔ IsQueued h u))
      (off : IsQueued g (timer_of fd) → (g.timers (timer_of fd)).has_callback ≡ false) where
    apart : (k : ℕ) → Mem k opened → k ≢ fd → timer_of k ≢ timer_of fd
    apart k m d e = d (
        sym (s.watched k m).client
        ∙ ap (λ u. (h.timers u).client_data) e
        ∙ (s.watched fd open_now).client)

    pub IsSound-closed : IsSound now g timer_of (minus_ℕ cnt 1) (remove fd opened)
    IsSound-closed = record {
      valid = valid;
      nodup = Nodup-remove fd opened s.nodup;
      watched = λ k m.
          let (old, d) = mem-remove fd k opened m in
          let w = s.watched k old in
          let ne = apart k old d in
          let (calls, expires) = same (timer_of k) ne in
          record {
            real = w.real;
            queued = (there (timer_of k) ne).1 w.queued;
            due = omega (arith, expires, w.due);
            calls = calls.0 ∙ w.calls;
            client = calls.1 ∙ w.client;
          };
      owned = λ u q c.
          let ne : u ≢ timer_of fd = λ e.
            let lost = off (subst (IsQueued g) e q) in
            let kept = ap (λ v. (g.timers v).has_callback) (sym e) ∙ c in cc in
          let (calls, expires) = same u ne in
          let (m, t) = s.owned u ((there u ne).0 q) (sym calls.0 ∙ c) in
          let d : (h.timers u).client_data ≢ fd = λ e. ne (sym t ∙ ap timer_of e) in
          (
            subst (λ k. Mem k (remove fd opened)) (sym calls.1)
                (remove-mem fd (h.timers u).client_data opened m d),
            ap timer_of calls.1 ∙ t,
          );
      counted =
          let fewer = length-remove fd opened s.nodup open_now in
          ap (λ n. minus_ℕ n 1) s.counted ∙ ground arith;
    }

  -- A descriptor that is not open is registered, with a new timer.
  module _ (fd address : ℕ) (new : ¬ Mem fd opened) (real : 0 < address)
      (fresh : ¬ IsQueued h address) (g : TimerHeap) (valid : IsValid g)
      (same : (u : ℕ) → u ≢ address → SameCalls g h u × (expire g u ≡ expire h u))
      (there : (u : ℕ) → IsQueued g u ↔ (IsQueued h u ⊎ (u ≡ address)))
      (due : expire g address ≡ now + 15) (calls : (g.timers address).has_callback ≡ true)
      (client : (g.timers address).client_data ≡ fd) where
    abbrev timer_of' : ℕ → ℕ
    timer_of' = update timer_of fd address

    at_new : timer_of' fd ≡ address
    at_new = ground arith

    at_old : (k : ℕ) → k ≢ fd → timer_of' k ≡ timer_of k
    at_old k d = ground arith

    watches_old : (k : ℕ) → Mem k opened → Watches now g timer_of' k
    watches_old k m =
        let d : k ≢ fd = λ e. new (subst (λ j. Mem j opened) e m) in
        let w = s.watched k m in
        let ne : timer_of k ≢ address = λ e. fresh (subst (IsQueued h) e w.queued) in
        let (kept, expires) = same (timer_of k) ne in
        let e : timer_of' k ≡ timer_of k = at_old k d in
        record {
          real = rw e w.real;
          queued = rw e ((there (timer_of k)).1 (inl w.queued));
          due = rw e (omega (arith, expires, w.due));
          calls = rw e (kept.0 ∙ w.calls);
          client = rw e (kept.1 ∙ w.client);
        }

    watches_new : (k : ℕ) → k ≡ fd → Watches now g timer_of' k
    watches_new k p =
        let e : timer_of' k ≡ address = ap timer_of' p ∙ at_new in
        record {
          real = rw e real;
          queued = rw e ((there address).1 (inr refl));
          due = rw e (omega (arith, due));
          calls = rw e calls;
          client = rw e (client ∙ sym p);
        }

    owned_by :
        (u : ℕ)
        → (IsQueued h u ⊎ (u ≡ address))
        → (g.timers u).has_callback ≡ true
        → Mem (g.timers u).client_data (fd ∷ opened) × (timer_of' (g.timers u).client_data ≡ u)
    owned_by u (inr e) c =
        let k : (g.timers u).client_data ≡ fd = ap (λ v. (g.timers v).client_data) e ∙ client in
        (inl k, ap timer_of' k ∙ at_new ∙ sym e)
    owned_by u (inl q) c =
        let ne : u ≢ address = λ e. fresh (subst (IsQueued h) e q) in
        let (kept, expires) = same u ne in
        let (m, t) = s.owned u q (sym kept.0 ∙ c) in
        let m' : Mem (g.timers u).client_data opened = subst (λ k. Mem k opened) (sym kept.1) m in
        let d : (g.timers u).client_data ≢ fd = λ e. new (subst (λ j. Mem j opened) e m') in
        (inr m', at_old (g.timers u).client_data d ∙ ap timer_of kept.1 ∙ t)

    watched_by : (k : ℕ) → Mem k (fd ∷ opened) → Watches now g timer_of' k
    watched_by k (inl p) = watches_new k p
    watched_by k (inr m) = watches_old k m

    pub IsSound-accepted : IsSound now g timer_of' (add_ℕ cnt 1) (fd ∷ opened)
    IsSound-accepted = record {
      valid = valid;
      nodup = (new, s.nodup);
      watched = watched_by;
      owned = λ u q c. owned_by u ((there u).0 q) c;
      counted = ap (λ n. add_ℕ n 1) s.counted ∙ ap pos (omega arith);
    }
