-- ===== src/Server/Signals.antt =====
-- What the signals of the process do to the loop of main, by way of the socket pair.
use wslyh.Base.{
  Bool, Bool-cases, List, [], ap, append-nil, append_assoc, arith, false, if◌then◌else◌, inl, inr,
  refl, some, sym, true, ℕ, ◌%◌, ◌++◌, ◌<◌, ◌==◌, ◌∙◌, ◌∷◌, ◌≡◌,
}
use wslyh.Server.Loop.{Loop, on_pipe, on_signal, on_signals, sig_handler, sigalrm, sigterm}

-- the bytes in the socket pair after the calls of SigHandler, the first signal first
abbrev pub delivered : List ℕ → List ℕ → List ℕ
delivered [] pipe = pipe
delivered (sig ∷ sigs) pipe = delivered sigs (sig_handler sig pipe)

abbrev pub includes : ℕ → List ℕ → Bool
includes n [] = false
includes n (x ∷ xs) = if x == n then true else includes n xs

abbrev pub AllSignals : List ℕ → Type 0
AllSignals [] = Unit
AllSignals (sig ∷ sigs) = (sig < 256) × AllSignals sigs

-- the loop, with the flags of the signals set
abbrev pub flagged : List ℕ → Loop → Loop
flagged sigs l = record l {
  timeout = if includes sigalrm sigs then true else l.timeout;
  stop_server = if includes sigterm sigs then true else l.stop_server;
}

delivered-append : (sigs pipe : List ℕ) → AllSignals sigs → delivered sigs pipe ≡ pipe ++ sigs
unfolding sig_handler
delivered-append [] pipe a = sym (append-nil pipe)
delivered-append (sig ∷ sigs) pipe a =
    let byte : sig % 256 ≡ sig = omega (arith, a.0) in
    delivered-append sigs (pipe ++ sig % 256 ∷ []) a.1
    ∙ append_assoc pipe (sig % 256 ∷ []) sigs
    ∙ ap (λ b. pipe ++ b ∷ sigs) byte

if_idem : (b : Bool) → (if b then true else true) ≡ true
if_idem true = refl
if_idem false = refl

on_signals-flagged : (sigs : List ℕ) (l : Loop) → on_signals sigs l ≡ flagged sigs l
unfolding on_signal
on_signals-flagged [] l = refl
on_signals-flagged (sig ∷ sigs) l =
    on_signals-flagged sigs (on_signal sig l) ∙ elim (Bool-cases (sig == 14)) [
      | inl alarm ↦
          let other : (sig == 15) ≡ false = ground arith in
          rw (alarm, other, if_idem (includes 14 sigs)) refl
      | inr no_alarm ↦ elim (Bool-cases (sig == 15)) [
        | inl term ↦ rw (no_alarm, term, if_idem (includes 15 sigs)) refl
        | inr no_term ↦ rw (no_alarm, no_term) refl
      ]
    ]

-- The signals that SigHandler was called for, when recv gives all of them: the loop sets `timeout`
-- where one is SIGALRM, and `stop_server` where one is SIGTERM, in whatever order they came, and does
-- nothing else.
pub on_pipe-delivered :
    (sigs : List ℕ) (l : Loop)
    → AllSignals sigs
    → on_pipe (some (delivered sigs [])) l ≡ flagged sigs l
on_pipe-delivered sigs l a =
    ap (λ pipe. on_signals pipe l) (delivered-append sigs [] a) ∙ on_signals-flagged sigs l
