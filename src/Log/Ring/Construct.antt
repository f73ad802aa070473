-- ===== src/Log/Ring/Construct.antt =====
-- The ring that the constructor makes.
use mathlib.Core.Path.{subst}
use native.Mathlib.Decide.{ℕ_discrete}
use wslyh.Log.Ring.Invariant.{IsRing, IsSound}
use wslyh.Log.Ring.Chain.{texts}
use wslyh.Base.{
  Option, [], ap, arith, length, none, pos, refl, some, sym, update, ℕ, ◌+◌, ◌<◌, ◌^◌, ◌∷◌, ◌≡◌,
  ◌≢◌, ◌≤◌,
}
use wslyh.Log.Cell.{Address, BufferCell, new_cell, text_of}
use wslyh.Log.Ring.{
  RingLog, attach_cell, close_ring, construct, create_cell_buffer, if_made, set_next, set_pre,
  shm_key,
}

module _ (shmget : ℕ → Option ℕ) (s : RingLog) where
  pub construct-no_head : shmget shm_key ≡ none → construct shmget s ≡ none
  unfolding construct create_cell_buffer
  construct-no_head p = rw (p, attach_cell, if_made) refl

  pub construct-no_second :
      (h : ℕ) → shmget shm_key ≡ some h → shmget (shm_key + 1) ≡ none → construct shmget s ≡ none
  unfolding construct create_cell_buffer
  construct-no_second h p q = rw (p, attach_cell, if_made, q) refl

module _ (shmget : ℕ → Option ℕ) (s : RingLog) (h c : ℕ) (apart : h ≢ c)
    (head_key : shmget shm_key ≡ some h) (cell_key : shmget (shm_key + 1) ≡ some c) where
  abbrev pub head_address : Address
  head_address = record { segment = h; attachment = s.attached }

  -- the two addresses of the segment of the second key
  abbrev pub second_address : Address
  second_address = record { segment = c; attachment = s.attached + 1 }

  abbrev third_address : Address
  third_address = record { segment = c; attachment = s.attached + 1 + 1 }

  abbrev head_cell : BufferCell
  head_cell = record (new_cell h s.one_buff_len (s.memory h).contents) {
    next = some second_address;
    next_shm_id = pos c;
    pre = some third_address;
    pre_shm_id = pos c;
  }

  abbrev second_cell : BufferCell
  second_cell = record (new_cell c s.one_buff_len (s.memory c).contents) {
    next = some head_address;
    next_shm_id = pos h;
    pre = some second_address;
    pre_shm_id = pos c;
  }

  abbrev attached_log : ℕ → RingLog → RingLog
  attached_log id t = record t {
    memory = update t.memory id (new_cell id t.one_buff_len (t.memory id).contents);
    attached = t.attached + 1;
  }

  -- the log after each of the cells
  abbrev with_head : RingLog
  with_head = attached_log h (record s { buff_cnt = 3; last_log_fail_time = 0 })

  abbrev with_second : RingLog
  with_second =
      set_next head_address second_address
        (set_pre second_address head_address (attached_log c with_head))

  abbrev with_third : RingLog
  with_third =
      set_next second_address third_address
        (set_pre third_address second_address (attached_log c with_second))

  abbrev pub made : RingLog
  made = close_ring head_address third_address with_third

  pub construct-made : construct shmget s ≡ some made
  unfolding construct create_cell_buffer
  construct-made = rw (head_key, attach_cell, if_made, cell_key)

  made-head : made.memory h ≡ head_cell
  made-head = ground arith

  made-second : made.memory c ≡ second_cell
  made-second = ground arith

  pub made-texts : texts made.memory (head_address ∷ second_address ∷ []) ≡ []
  made-texts =
      let a : text_of (made.memory h) ≡ [] = ap text_of made-head in
      let b : text_of (made.memory c) ≡ [] = ap text_of made-second in rw (a, b) refl

  made-elsewhere : (i : ℕ) → i ≢ h → i ≢ c → made.memory i ≡ s.memory i
  made-elsewhere i p q = ground arith

  made-contents : (i : ℕ) → (made.memory i).contents ≡ (s.memory i).contents
  made-contents i = by_segment (ℕ_discrete i h) (ℕ_discrete i c)
    where
      by_segment : Dec (i ≡ h) → Dec (i ≡ c) → (made.memory i).contents ≡ (s.memory i).contents
      by_segment (yes e) d = rw e (ap (λ x. x.contents) made-head)
      by_segment (no p) (yes e) = rw e (ap (λ x. x.contents) made-second)
      by_segment (no p) (no q) = ap (λ x. x.contents) (made-elsewhere i p q)

  module _ (small : s.one_buff_len < 2 ^ 32)
      (room : (i : ℕ) → s.one_buff_len ≤ length (s.memory i).contents) where
    pub made-IsRing : IsRing shmget [] (head_address ∷ second_address ∷ []) made
    made-IsRing = record {
      base = record {
        small = small;
        room = λ i. rw (made-contents i) (room i);
        sound = (
          subst (IsSound s.one_buff_len head_address) (sym made-head) (refl, refl, omega arith),
          (
            subst (IsSound s.one_buff_len second_address) (sym made-second)
                (refl, refl, omega arith),
            tt,
          ),
        );
        keyed = ((0, omega arith, head_key), ((1, omega arith, cell_key), tt));
        distinct = ((λ e. apart (sym e), tt), (tt, tt));
        head = (second_address ∷ [], refl);
      };
      chain = (
        ap (λ x. x.next) made-head,
        ap (λ x. x.next_shm_id) made-head,
        (ap (λ x. x.next) made-second, ap (λ x. x.next_shm_id) made-second, tt),
      );
      cur = refl;
      full = tt;
      free = (ap (λ x. x.status) made-head, (ap (λ x. x.status) made-second, tt));
      blank = (ap (λ x. x.cur_length) made-second, tt);
      prst_id = ap (λ x. x.shm_id) made-head;
    }

    -- The constructor, where shmget gives different segments for its two keys that are long enough:
    -- it counts three cells, but makes two of them in one segment, and the ring from the head, by
    -- the next pointers and by the ids, is the head, that segment, and the head again. The ring is in
    -- order, with all cells free and without text.
    pub construct-two_cells :
        (construct shmget s ≡ some made)
        × (made.buff_cnt ≡ 3)
        × IsRing shmget [] (head_address ∷ second_address ∷ []) made
    construct-two_cells = (construct-made, refl, made-IsRing)
