-- ===== src/Base/Arrays.antt =====
-- Reads of an array and writes into one.
use Prim.Native.Nat.{ℕ, ◌+◌}
use wslyh.Base.Tests.{Bytes, if◌then◌else◌, leb}
use wslyh.Base.Lists.{drop, length, splice, take}
use wslyh.Base.Outcomes.{Outcome, fault, ok, out_of_bounds}

-- The `n` bytes at offset `p` of an array.
unfoldable pub read_bytes : Bytes → ℕ → ℕ → Outcome Bytes
read_bytes buf p n =
    if leb (p + n) (length buf) then ok (take n (drop p buf)) else fault out_of_bounds

-- memcpy of `text` to the offset `p` of an array
unfoldable pub write_bytes : Bytes → ℕ → Bytes → Outcome Bytes
write_bytes buf p text =
    if leb (p + length text) (length buf) then ok (splice buf p text) else fault out_of_bounds
