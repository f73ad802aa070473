-- ===== src/Log/Fifo/Lossless.antt =====
-- What the threads of the log promise, from the constructor on.
use wslyh.Log.Fifo.Reset.{IsReset}
use wslyh.Base.{
  Bool, Bytes, List, Option, Outcome, [], ap, arith, false, length, none, ok, refl, some, sym, true,
  ℕ, ◌+◌, ◌<◌, ◌^◌, ◌∙◌, ◌∷◌, ◌≡◌, ◌≢◌, ◌≤◌,
}
use wslyh.Log.Cell.{Address}
use wslyh.Log.Ring.{RingLog, claim, construct, shm_key}
use wslyh.Log.Ring.Chain.{texts}
use wslyh.Log.Ring.Invariant.{IsRing}
use wslyh.Log.Ring.Construct.{
  construct-made, construct-no_head, construct-no_second, head_address, made, made-IsRing,
  made-texts, second_address,
}
use wslyh.Log.Ring.Persist.{Claimed, claim-Claimed}
use wslyh.Log.Fifo.{Phase, Reach, System}
use wslyh.Log.Fifo.Order.{Holds, Reach-Holds}
use mathlib.Core.Path.{subst}

-- the log as it is made, before any thread calls it
abbrev pub fresh : RingLog → System
fresh log = record { log = log; calling = false; phase = Phase.waiting; file = []; accepted = [] }

module _ (shmget : ℕ → Option ℕ)
    (injective : (j k i : ℕ) → shmget j ≡ some i → shmget k ≡ some i → j ≡ k) (s0 s : RingLog)
    (constructed : construct shmget s0 ≡ some s) (small : s0.one_buff_len < 2 ^ 32)
    (room : (i : ℕ) → s0.one_buff_len ≤ length (s0.memory i).contents) where
  no_head : shmget shm_key ≡ none → ⊥
  no_head p = let e : none ≡ some s = sym (construct-no_head shmget s0 p) ∙ constructed in absurd cc

  no_second : (h : ℕ) → shmget shm_key ≡ some h → shmget (shm_key + 1) ≡ none → ⊥
  no_second h p q =
      let e : none ≡ some s = sym (construct-no_second shmget s0 h p q) ∙ constructed in absurd cc

  keys_differ : (h c : ℕ) → h ≡ c → shmget shm_key ≡ some h → shmget (shm_key + 1) ≡ some c → ⊥
  keys_differ h c e p q =
      let same : shm_key ≡ shm_key + 1 =
        injective shm_key (shm_key + 1) h p (q ∙ ap some (sym e)) in
      absurd (omega (arith, same))

  -- the constructed log is a ring without text
  start : (frees : List Address) × IsRing shmget [] frees s × (texts s.memory frees ≡ [])
  start = by_keys (shmget shm_key) refl (shmget (shm_key + 1)) refl
    where
      by_keys :
          (a : Option ℕ)
          → shmget shm_key ≡ a
          → (b : Option ℕ) → shmget (shm_key + 1) ≡ b
          → (frees : List Address) × IsRing shmget [] frees s × (texts s.memory frees ≡ [])
      by_keys none p b q = absurd (no_head p)
      by_keys (some h) p none q = absurd (no_second h p q)
      by_keys (some h) p (some c) q =
          let apart : h ≢ c = λ e. keys_differ h c e p q in
          let same : made shmget s0 h c apart p q ≡ s =
            ap (λ o. elim o [ none ↦ s0 | some u ↦ u ])
              (sym (construct-made shmget s0 h c apart p q) ∙ constructed) in
          subst
            (λ u. (frees : List Address) × IsRing shmget [] frees u × (texts u.memory frees ≡ []))
            same
            (
              head_address shmget s0 h c apart p q ∷ second_address shmget s0 h c apart p q ∷ [],
              made-IsRing shmget s0 h c apart p q small room,
              made-texts shmget s0 h c apart p q,
            )

  fresh-IsReset : IsReset (fresh s)
  fresh-IsReset c = let never : false ≡ true = c in cc

  Reach-IsRing : {t : System} → Reach shmget (fresh s) t → Holds shmget injective t.phase t
  Reach-IsRing r =
      let (frees, q, e) = start in
      Reach-Holds shmget injective r fresh-IsReset ([], frees, q, sym e)

  -- Under the conditions of `accepted-file_left`, with no two calls of TryAppendLog at once between
  -- their reset and Unlock, the assert of PersistLog holds, and it reads no null pointer there.
  pub claim-succeeds :
      {t : System}
      → Reach shmget (fresh s) t
      → t.phase ≡ Phase.waiting
      → (u : RingLog) × (found : Bool) × (claim t.log ≡ ok (u, found))
  claim-succeeds {t} r p =
      let (fulls, frees, q, e) = subst (λ h. Holds shmget injective h t) p (Reach-IsRing r) in
      outcome (claim t.log) (claim-Claimed shmget fulls frees t.log q)
    where
      outcome :
          {text : Bytes} (o : Outcome (RingLog × Bool))
          → Claimed shmget t.log text o
          → (u : RingLog) × (found : Bool) × (o ≡ ok (u, found))
      outcome _ (Claimed.idle z) = (t.log, false, refl)
      outcome _ (Claimed.taken u fulls frees r p x) = (u, true, refl)
