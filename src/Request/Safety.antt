-- ===== src/Request/Safety.antt =====
-- Which faults a parse of a request can meet.
use wslyh.Base.{Bytes, Fault, Outcome, drop, false, fault, ok, ℕ, ◌+◌, ◌<◌, ◌∷◌, ◌≡◌, ◌≤◌}
use wslyh.Request.{Request}
use wslyh.Request.Loop.{fresh_locals, goes_on, step}
use wslyh.Request.Step.{Scan}
use wslyh.Request.Locals.{FaultAt}

-- The steps of the loop from the locals `s`, each on the byte at next_pos, one of the `size` received.
pub data Runs (buf : Bytes) (size : ℕ) (s : Scan) : Scan → Type 0 where
  here : Runs buf size s s
  next :
      {t u : Scan} (ch : ℕ) (rest : Bytes)
      → Runs buf size s t
      → t.req.next_pos < size
      → drop t.req.next_pos buf ≡ ch ∷ rest
      → step buf size ch t ≡ ok u
      → Runs buf size s u

-- The loop comes to a byte, one of those received, at which it has the fault: behind the last CR
-- where the value of Content-Length is no int, or in the body where its length is more than the buffer
-- has from there.
pub data FailsAt (buf : Bytes) (size : ℕ) (s : Scan) (f : Fault) : Type 0 where
  fails :
      (t : Scan) (ch : ℕ) (rest : Bytes)
      → Runs buf size s t
      → t.req.next_pos < size
      → drop t.req.next_pos buf ≡ ch ∷ rest
      → step buf size ch t ≡ fault f
      → FaultAt buf t.req.decode_state t.req.next_pos t f
      → FailsAt buf size s f

-- A call from the locals `s` ends by such steps, in a final state or with all bytes read, or fails.
abbrev EndInv : Bytes → ℕ → Scan → Outcome Scan → Type 0
EndInv buf size s (ok t) =
    Runs buf size s t × (goes_on size t.req ≡ false) × (t.req.next_pos ≤ size)
EndInv buf size s (fault f) = FailsAt buf size s f

-- `pos` is moved before the switch
abbrev moved_on : Scan → Scan
moved_on s = record s { req = record s.req { next_pos = s.req.next_pos + 1 } }

-- A call that starts at a fresh request ends where the steps of the loop come to, with all the bytes
-- read or in a final state, or fails.
abbrev pub ParseEnds : Bytes → ℕ → Request → Outcome Request → Type 0
ParseEnds buf size r0 (ok r) =
    (s : Scan) × Runs buf size (fresh_locals r0) s
    × (r ≡ s.req)
    × (goes_on size r ≡ false)
    × (r.next_pos ≤ size)
ParseEnds buf size r0 (fault f) = FailsAt buf size (fresh_locals r0) f
