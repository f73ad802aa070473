-- ===== src/Http/Deliver.antt =====
-- How Write sends a response of two arrays over several calls of writev.
use mathlib.Core.Path.{subst}
use mathlib.Core.List.{append_assoc}
use wslyh.Base.{
  Bool, Bytes, List, Succeeds, [], ap, arith, drop, false, is_positive, is_zero, leb, length,
  length-append, length-drop, minus_ℕ, ok, pos, read_bytes, refl, some, suc, succeeds, take,
  take-all, take-append-more, take-append-take, true, zero, ℕ, ℤ, ◌++◌, ◌+◌, ◌-◌, ◌<◌, ◌∙◌, ◌∷◌,
  ◌≡◌, ◌≤◌,
}
use wslyh.Http.{Http, World}
use wslyh.Http.Transfer.{
  Writing, Written, advance, count_sent, finish_write, gather, gather_at, returned, taken, write,
  write_loop,
}

-- The response `head`, in the write buffer, and `file`, mapped, are ready to be sent, as ParseWrite
-- leaves them.
pub record IsReady (head file : Bytes) (h : Http) : Type 0 where
  pub fits : length head ≤ length h.write_data
  pub head_is : take (length head) h.write_data ≡ head
  pub head_len : h.write_idx ≡ length head
  pub file_is : h.file_addr ≡ some file
  pub nothing_sent : h.data_send_len ≡ 0
  pub all_data : h.data_len ≡ pos (length head + length file)
  pub iv_head_is : h.iv_head ≡ record { iov_base = pos 0; iov_len = length head }
  pub iv_file_is : h.iv_file ≡ record { iov_base = pos 0; iov_len = length file }

-- The head is sent, and `k` bytes of the file.
record InFile (head file : Bytes) (k : ℕ) (h : Http) : Type 0 where
  head_len : h.write_idx ≡ length head
  file_is : h.file_addr ≡ some file
  sent_len : h.data_send_len ≡ length head + k
  data_left : h.data_len ≡ pos (length file - k)
  iv_head_done : h.iv_head.iov_len ≡ 0
  iv_file_is : h.iv_file ≡ record { iov_base = pos k; iov_len = length file - k }

read_bytes-rest :
    (file : Bytes) (k : ℕ)
    → k ≤ length file
    → read_bytes file k (length file - k) ≡ ok (drop k file)
unfolding read_bytes
read_bytes-rest file k h =
    rw (take-all (length file - k) (drop k file) (omega (arith, length-drop k file))) (ground arith)

gather_at-rest :
    (array : Bytes) (b n : ℕ) → 0 < n → gather_at array (pos b) n ≡ read_bytes array b n
unfolding gather_at
gather_at-rest array b zero h = absurd (omega arith)
gather_at-rest array b (suc n) h = refl

gather_at-empty : (array : Bytes) (b : ℤ) (n : ℕ) → n ≡ 0 → gather_at array b n ≡ ok []
unfolding gather_at
gather_at-empty array b n e = rw e

gather-InFile :
    (head file : Bytes) (k : ℕ) (h : Http)
    → InFile head file k h
    → k < length file
    → gather h ≡ ok (drop k file)
unfolding gather
gather-InFile head file k h i l =
    rw
      (
        gather_at-empty h.write_data h.iv_head.iov_base h.iv_head.iov_len i.iv_head_done,
        i.file_is,
        i.iv_file_is,
      )
      (rw (
        gather_at-rest file k (length file - k) (omega arith),
        read_bytes-rest file k (omega arith),
      ))

all_sent :
    (file : Bytes) (k n : ℕ) → length file ≤ k + n → take k file ++ take n (drop k file) ≡ file
all_sent file k n l = take-append-take k n file ∙ take-all (k + n) file l

-- the results of writev that take the given numbers of bytes
abbrev pub takes : List ℕ → List Written
takes [] = []
takes (n ∷ ns) = taken n ∷ takes ns

-- The numbers are more than 0 and add up to `total`; what follows the last one is not looked at.
pub data AddUpTo : ℕ → List ℕ → Type 0 where
  one : {total : ℕ} (n : ℕ) → 0 < n → n ≡ total → AddUpTo total (n ∷ [])
  more :
      {total : ℕ} (n : ℕ) {ns : List ℕ} (rest : ℕ)
      → 0 < n
      → 0 < rest
      → n + rest ≡ total
      → AddUpTo rest ns
      → AddUpTo total (n ∷ ns)

-- Write has sent `bytes`, and returns whether the connection stays open.
abbrev pub Delivers : Bytes → Bool → Writing → Type 0
Delivers bytes linger r = (r.sent ≡ bytes) × (r.progress ≡ returned linger)

advance-InFile :
    (head file : Bytes) (k n : ℕ) (h : Http)
    → InFile head file k h
    → n < length file - k
    → InFile head file (k + n) (advance (count_sent n h))
unfolding advance
advance-InFile head file k n h i l =
    let past : leb h.iv_head.iov_len (h.data_send_len + n) ≡ true =
      ground (arith, i.iv_head_done) in
    rw past (record {
      head_len = i.head_len;
      file_is = i.file_is;
      sent_len = omega (arith, i.sent_len);
      data_left = ground (arith, i.data_left);
      iv_head_done = refl;
      iv_file_is = ground (arith, i.data_left, i.sent_len, i.head_len);
    })

linger-advance : (n : ℕ) (h : Http) → (advance (count_sent n h)).linger ≡ h.linger
unfolding advance
linger-advance n h = ground arith

finish_Delivers :
    (h : Http) (w : World) (bytes sent : Bytes)
    → sent ≡ bytes
    → Delivers bytes h.linger (finish_write h w sent)
unfolding finish_write
finish_Delivers h w bytes sent e = (e, refl)

write_loop-InFile :
    (head file : Bytes) (k : ℕ) (h : Http) (w : World) {total : ℕ} {ns : List ℕ}
    → AddUpTo total ns
    → InFile head file k h
    → total + k ≡ length file
    → Succeeds (Delivers (head ++ file) h.linger) (write_loop (takes ns) h w (head ++ take k file))
unfolding write_loop
write_loop-InFile head file k h w (one n z e) i s =
    let last : is_positive (minus_ℕ h.data_len n) ≡ false = ground (arith, i.data_left) in
    rw (gather-InFile head file k h i (omega arith), last)
      (succeeds (
        finish_Delivers (count_sent n h) w (head ++ file) _ (
          append_assoc head (take k file) (take n (drop k file))
          ∙ ap (◌++◌ head) (all_sent file k n (omega arith)))))
write_loop-InFile head file k h w (more n {ns = ms} rest z z' e a) i s =
    let onward : is_positive (minus_ℕ h.data_len n) ≡ true = ground (arith, i.data_left) in
    rw
      (
        gather-InFile head file k h i (omega arith),
        onward,
        append_assoc head (take k file) (take n (drop k file)),
        take-append-take k n file,
      )
      (subst
        (λ l.
          Succeeds (Delivers (head ++ file) l)
            (write_loop (takes ms) (advance (count_sent n h)) w (head ++ take (k + n) file)))
        (linger-advance n h)
        (write_loop-InFile head file (k + n) (advance (count_sent n h)) w a
          (advance-InFile head file k n h i (omega arith)) (omega arith)))

gather_at-whole :
    (array : Bytes) (n : ℕ) → n ≤ length array → gather_at array (pos 0) n ≡ ok (take n array)
unfolding gather_at read_bytes
gather_at-whole array zero h = refl
gather_at-whole array (suc n) h = ground arith

pub gather-IsReady :
    (head file : Bytes) (h : Http) → IsReady head file h → gather h ≡ ok (head ++ file)
unfolding gather
gather-IsReady head file h r =
    rw (r.iv_head_is, r.iv_file_is, r.file_is)
      (rw (
        gather_at-whole h.write_data (length head) r.fits,
        r.head_is,
        gather_at-whole file (length file) (omega arith),
        take-all (length file) file (omega arith),
      ))

advance-IsReady :
    (head file : Bytes) (n : ℕ) (h : Http)
    → IsReady head file h
    → length head ≤ n
    → n < length head + length file
    → InFile head file (n - length head) (advance (count_sent n h))
unfolding advance
advance-IsReady head file n h r l m =
    let past : leb h.iv_head.iov_len (h.data_send_len + n) ≡ true =
      ground (arith, r.iv_head_is, r.nothing_sent) in
    rw past (record {
      head_len = r.head_len;
      file_is = r.file_is;
      sent_len = omega (arith, r.nothing_sent);
      data_left = ground (arith, r.all_data);
      iv_head_done = refl;
      iv_file_is = ground (arith, r.all_data, r.nothing_sent, r.head_len);
    })

-- Write on a response that is ready sends the head and then the whole file, in order and once, over
-- any number of calls of writev that take all the bytes between them, if the first of them takes the
-- whole head. It then says to keep the connection if it lingers, and to close it if not.
pub write-Delivers :
    (head file : Bytes) (h : Http) (w : World) (n : ℕ) (ns : List ℕ)
    → IsReady head file h
    → length head ≤ n
    → AddUpTo (length head + length file) (n ∷ ns)
    → Succeeds (Delivers (head ++ file) h.linger) (write (takes (n ∷ ns)) h w)
unfolding write write_loop
write-Delivers head file h w n [] r l (one _ z e) =
    let some_data : is_zero h.data_len ≡ false = ground (arith, r.all_data) in
    let last : is_positive (minus_ℕ h.data_len n) ≡ false = ground (arith, r.all_data) in
    rw (some_data, gather-IsReady head file h r, last)
      (succeeds (
        finish_Delivers (count_sent n h) w (head ++ file) _
          (take-all n (head ++ file) (omega (arith, length-append {0} head file)))))
write-Delivers head file h w n ns r l (more _ rest z z' e a) =
    let some_data : is_zero h.data_len ≡ false = ground (arith, r.all_data) in
    let onward : is_positive (minus_ℕ h.data_len n) ≡ true = ground (arith, r.all_data) in
    rw (some_data, gather-IsReady head file h r, onward, take-append-more n head file l)
      (subst
        (λ l. Succeeds (Delivers (head ++ file) l) (
          write_loop (takes ns) (advance (count_sent n h)) w (head ++ take (n - length head) file)))
        (linger-advance n h)
        (write_loop-InFile head file (n - length head) (advance (count_sent n h)) w a
          (advance-IsReady head file n h r l (omega arith)) (omega arith)))
