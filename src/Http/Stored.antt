-- ===== src/Http/Stored.antt =====
-- What Read leaves in the read buffer.
use mathlib.Core.List.{append-nil, append_assoc}
use wslyh.Base.{
  Bool, Bool-cases, Bytes, List, [], ap, arith, false, if◌then◌else◌, inl, inr, leb, length,
  length-splice, length-take, refl, sym, take, take-splice-append, true, ◌++◌, ◌+◌, ◌-◌, ◌==◌, ◌∙◌,
  ◌∷◌, ◌≡◌, ◌≤◌,
}
use wslyh.Http.{Http, max_buff_size}
use wslyh.Http.Transfer.{
  Received, again, broken, end_of_stream, read, read_edge, read_level, recv, returned, waiting,
}

-- The data received so far.
abbrev pub received : Http → Bytes
received h = take h.read_idx h.read_data

-- The buffer has its size, and the position is in it.
abbrev pub IsBuffered : Http → Type 0
IsBuffered h = (length h.read_data ≡ max_buff_size) × (h.read_idx ≤ max_buff_size)

-- `h'` is `h` with more data received.
pub record ReceivesMore (h h' : Http) : Type 0 where
  pub buffered : IsBuffered h'
  pub extra : Bytes
  pub extended : received h' ≡ received h ++ extra
  pub rest : h' ≡ record h { read_data = h'.read_data; read_idx = h'.read_idx }

ReceivesMore-refl : (h : Http) → IsBuffered h → ReceivesMore h h
ReceivesMore-refl h b = record {
  buffered = b;
  extra = [];
  extended = sym (append-nil (received h));
  rest = refl;
}

ReceivesMore-trans : {f g h : Http} → ReceivesMore f g → ReceivesMore g h → ReceivesMore f h
ReceivesMore-trans {f = f} {h = h} p q = record {
  buffered = q.buffered;
  extra = p.extra ++ q.extra;
  extended =
      q.extended ∙ ap (λ x. x ++ q.extra) p.extended ∙ append_assoc (received f) p.extra q.extra;
  rest =
      q.rest
      ∙ ap (λ (x : Http). record x { read_data = h.read_data; read_idx = h.read_idx }) p.rest;
}

recv-ReceivesMore : (bytes : Bytes) (h : Http) → IsBuffered h → ReceivesMore h (recv bytes h).0
unfolding recv
recv-ReceivesMore bytes h b =
    let part = take (max_buff_size - h.read_idx) bytes in
    let short : h.read_idx + length part ≤ max_buff_size =
      omega (arith, b.1, length-take {0} (max_buff_size - h.read_idx) bytes) in
    record {
      buffered = (length-splice h.read_data h.read_idx part ∙ b.0, short);
      extra = part;
      extended =
          rw (append-nil part) at
            (take-splice-append h.read_data h.read_idx part [] (omega (arith, b.0, short)));
      rest = refl;
    }

read_edge-ReceivesMore :
    (events : List Received) (h : Http) → IsBuffered h → ReceivesMore h (read_edge events h).0
unfolding read_edge
read_edge-ReceivesMore [] h b = ReceivesMore-refl h b
read_edge-ReceivesMore (waiting bytes ∷ rest) h b = elim (Bool-cases ((recv bytes h).1 == 0)) [
  | inl none_left ↦ rw none_left (ReceivesMore-refl h b)
  | inr some_data ↦
      let r = recv-ReceivesMore bytes h b in
      rw some_data (ReceivesMore-trans r (read_edge-ReceivesMore rest (recv bytes h).0 r.buffered))
]
read_edge-ReceivesMore (end_of_stream ∷ rest) h b = ReceivesMore-refl h b
read_edge-ReceivesMore (again ∷ rest) h b = ReceivesMore-refl h b
read_edge-ReceivesMore (broken ∷ rest) h b = ReceivesMore-refl h b

read_level-ReceivesMore :
    (events : List Received) (h : Http) → IsBuffered h → ReceivesMore h (read_level events h).0
unfolding read_level
read_level-ReceivesMore (waiting bytes ∷ rest) h b = elim (Bool-cases ((recv bytes h).1 == 0)) [
  | inl none_left ↦ rw none_left (ReceivesMore-refl h b)
  | inr some_data ↦ rw some_data (recv-ReceivesMore bytes h b)
]
read_level-ReceivesMore [] h b = ReceivesMore-refl h b
read_level-ReceivesMore (end_of_stream ∷ rest) h b = ReceivesMore-refl h b
read_level-ReceivesMore (again ∷ rest) h b = ReceivesMore-refl h b
read_level-ReceivesMore (broken ∷ rest) h b = ReceivesMore-refl h b

-- Read stays within the read buffer and only appends to the data received, in both trigger modes and
-- whatever recv returns, and changes nothing else of the connection; with a full buffer it reads
-- nothing and returns false.
pub read-ReceivesMore :
    (events : List Received) (h : Http)
    → IsBuffered h
    → ReceivesMore h (read events h).0
      × (read events (record h { read_idx = max_buff_size })
          ≡ (record h { read_idx = max_buff_size }, returned false))
unfolding read
read-ReceivesMore events h b = (kept, refl)
  where
    kept :
        ReceivesMore h
          (if leb max_buff_size h.read_idx
            then (h, returned false)
            else if h.trigger_mode
            then read_edge events h
            else read_level events h).0
    kept = elim (Bool-cases (leb max_buff_size h.read_idx)) [
      | inl full ↦ rw full (ReceivesMore-refl h b)
      | inr room ↦ rw room (by_mode h.trigger_mode)
    ]
      where
        by_mode :
            (m : Bool) → ReceivesMore h (if m then read_edge events h else read_level events h).0
        by_mode true = read_edge-ReceivesMore events h b
        by_mode false = read_level-ReceivesMore events h b
