-- ===== src/Http/Partial.antt =====
-- How Write goes on when writev takes only a part of the head, twice.
use wslyh.Base.{
  Bytes, List, arith, drop, false, fault, is_positive, is_zero, length, minus_ℕ, negsuc, ok,
  out_of_bounds, pos, read_bytes, refl, suc, take, take-all, true, zero, ℕ, ◌++◌, ◌+◌, ◌-◌, ◌<◌,
  ◌∷◌, ◌≡◌, ◌≤◌,
}
use wslyh.Http.{Http, World}
use wslyh.Http.Transfer.{Written, advance, count_sent, gather, gather_at, taken, write, write_loop}
use wslyh.Http.Deliver.{IsReady, gather-IsReady}

gather_at-inside :
    (array : Bytes) (b n : ℕ)
    → b + n ≤ length array
    → gather_at array (pos b) n ≡ ok (take n (drop b array))
unfolding gather_at read_bytes
gather_at-inside array b zero h = refl
gather_at-inside array b (suc n) h = ground arith

gather_at-before :
    (array : Bytes) (b n : ℕ) → 0 < n → gather_at array (negsuc b) n ≡ fault out_of_bounds
unfolding gather_at
gather_at-before array b zero h = absurd (omega arith)
gather_at-before array b (suc n) h = refl

module _ (head file : Bytes) (h : Http) (a b : ℕ) (r : IsReady head file h)
    (first : a < length head) (second : a + b < length head) (past : length head ≤ a + a + b) where
  abbrev once : Http
  once = advance (count_sent a h)

  abbrev twice : Http
  twice = advance (count_sent b once)

  once_lem :
      (once ≡ record (count_sent a h) {
        iv_head = record { iov_base = pos a; iov_len = length head - a };
      })
  unfolding advance
  once_lem = ground (arith, r.iv_head_is, r.nothing_sent)

  twice_lem :
      twice
      ≡ record (count_sent b (record (count_sent a h) {
        iv_head = record { iov_base = pos a; iov_len = length head - a };
      })) {
        iv_head = record { iov_base = pos a; iov_len = 0 };
        iv_file = record {
          iov_base = negsuc (length head - (a + b) - 1);
          iov_len = length head + length file - a - b;
        };
      }
  twice_lem = rw once_lem (unfold advance in ground (arith, r.nothing_sent, r.all_data, r.head_len))

  gather-once : gather once ≡ ok (take (length head - a) (drop a h.write_data) ++ file)
  gather-once = rw once_lem (
      unfold gather in
      rw (r.iv_file_is, r.file_is)
        (rw (
          gather_at-inside h.write_data a (length head - a) (omega (arith, r.fits)),
          gather_at-inside file 0 (length file) (omega arith),
          take-all (length file) file (omega arith),
        )))

  gather-twice : gather twice ≡ fault out_of_bounds
  gather-twice = rw twice_lem (
      unfold gather in
      rw r.file_is (
        rw (
          gather_at-before file (length head - (a + b) - 1) (length head + length file - a - b)
            (omega arith))))

  -- Where writev takes `a` and then `b` bytes, which together are less than the head but no less than
  -- what was left of it after the first call, the third call is given an address before the start of
  -- the mapped file.
  pub write-partial_head :
      (w : World) (c : ℕ) (rest : List Written)
      → write (taken a ∷ taken b ∷ taken c ∷ rest) h w ≡ fault out_of_bounds
  unfolding write write_loop
  write-partial_head w c rest =
      let some_data : is_zero h.data_len ≡ false = ground (arith, r.all_data) in
      let left_once : is_positive (minus_ℕ h.data_len a) ≡ true = ground (arith, r.all_data) in
      let left_twice : is_positive (minus_ℕ once.data_len b) ≡ true =
        rw once_lem (ground (arith, r.all_data)) in
      rw (some_data, gather-IsReady head file h r, left_once, gather-once, left_twice, gather-twice)
