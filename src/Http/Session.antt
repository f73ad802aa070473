-- ===== src/Http/Session.antt =====
-- A GET request, from the bytes that arrive to the bytes of the one file that are sent.
use wslyh.Request.Printed.{print-tail}
use wslyh.Http.Serve.{IsIdle}
use wslyh.Http.Deliver.{AddUpTo, Delivers, IsReady, takes, write-Delivers}
use wslyh.Http.Ready.{file_head, parse_write-IsReady, parse_write-kept}
use wslyh.Http.Respond.{
  FileStat, answer, http_parse, is_body, is_opened, parse_read, parse_write, read_status,
}
use wslyh.Request.Step.{content_length}
use wslyh.Request.Loop.{parse_internal}
use wslyh.Request.Ending.{ended}
use wslyh.Http.Transfer.{Progress, read, read_level, recv, returned, waiting, write}
use wslyh.Http.{Http, World, cleared, epoll_out, init_http, max_buff_size, mod_fd}
use wslyh.Base.{
  Bytes, List, Succeeds, [], ap, arith, codes, drop, equal, false, if◌then◌else◌, length,
  length-append, length-replicate, none, ok, refl, some, splice, succeeds, sym, take, take-all,
  true, ℕ, ◌++◌, ◌+◌, ◌<◌, ◌==◌, ◌>>=◌, ◌^◌, ◌∙◌, ◌∷◌, ◌≡◌, ◌≤◌,
}
use wslyh.Request.{DecodeState, Request, find, init}
use wslyh.Request.Fields.{insert_all}
use wslyh.Request.Message.{IsMessage, Message, as_request, bytes, parse_internal-print, print}
use mathlib.Core.Path.{subst}

splice-front : (xs ys : Bytes) → length ys ≤ length xs → splice xs 0 ys ≡ ys ++ drop (length ys) xs
splice-front [] [] l = refl
splice-front [] (y ∷ ys) l = absurd (omega arith)
splice-front (x ∷ xs) [] l = refl
splice-front (x ∷ xs) (y ∷ ys) l = ap (◌∷◌ y) (splice-front xs ys (omega arith))

status-ended :
    (n : ℕ) (q : Request)
    → equal q.method (codes "GET") ≡ true
    → read_status n (ended n q DecodeState.body) ≡ DecodeState.complete
unfolding read_status is_body
status-ended n q get = let e : (n == n) ≡ true = ground arith in rw (e, get) refl

-- What HttpParse leaves, where it answers: the socket is to be writable, and Write then sends the
-- response with these calls of writev.
abbrev pub Answers : ℕ → Bytes → World → List ℕ → Http × World → Type 0
Answers fd response w ns (h, w') =
    (w' ≡ mod_fd (some fd) epoll_out false w)
    × ((v : World) → Succeeds (Delivers response false) (write (takes ns) h v))

module _ (old : Http) (fd : ℕ) (w0 : World) where
  -- the connection after Init
  abbrev pub fresh : Http
  fresh = (init_http fd false old w0).0

  -- and after Read
  abbrev pub loaded : Bytes → Http
  loaded bytes = record fresh {
    read_data = bytes ++ drop (length bytes) cleared;
    read_idx = length bytes;
  }

  abbrev stored_at : Bytes → ℕ → Http × Progress
  stored_at read_data read_idx =
      (record fresh { read_data = read_data; read_idx = read_idx }, returned true)

  pub read-loaded :
      (bytes : Bytes)
      → 0 < length bytes
      → length bytes ≤ max_buff_size
      → read (waiting bytes ∷ []) fresh ≡ (loaded bytes, returned true)
  unfolding read read_level recv init_http
  read-loaded bytes some_data fits =
      let sized : length cleared ≡ 5120 = length-replicate {A = ℕ} 5120 0 in
      let whole : take 5120 bytes ≡ bytes = take-all 5120 bytes fits in
      let stored : splice cleared 0 bytes ≡ bytes ++ drop (length bytes) cleared =
        splice-front cleared bytes (omega (arith, sized, fits)) in
      let z : (length bytes == 0) ≡ false = ground arith in
      let i : 0 + length bytes ≡ length bytes = omega arith in
      subst
        (λ b.
          (if length b == 0
            then (fresh, returned false)
            else stored_at (splice cleared 0 b) (0 + length b))
          ≡ (loaded bytes, returned true))
        (sym whole)
        (rw z (
          ap (λ d. stored_at d (0 + length bytes)) stored
          ∙ ap (stored_at (bytes ++ drop (length bytes) cleared)) i))

  module _ (m : Message) (is_message : IsMessage m) (fits : length (print m []) ≤ max_buff_size)
      (get : equal (bytes m.method) (codes "GET") ≡ true)
      (no_length : find content_length (insert_all m.fields []) ≡ none) where
    abbrev text : Bytes
    text = print m []

    abbrev zeros : Bytes
    zeros = drop (length text) cleared

    -- the request that ParseInternal makes
    abbrev parsed : Request
    parsed = ended (length text) (as_request m) DecodeState.body

    parse-parsed : parse_internal (text ++ zeros) (length text) (init old.http_parse) ≡ ok parsed
    parse-parsed =
        let printed = print-tail m zeros in
        let sizes : length text + length zeros ≡ length (print m zeros) =
          sym (ap (λ (b : Bytes). length b) printed ∙ length-append text zeros) in
        subst (λ b. parse_internal b (length text) (init old.http_parse) ≡ ok parsed) printed
          (parse_internal-print m zeros (length text) old.http_parse is_message sizes
            ∙ rw no_length refl)

    -- the connection after ParseRead
    abbrev read_whole : Http
    read_whole = record (loaded text) { http_parse = parsed }

    parse_read-parsed : parse_read (loaded text) ≡ ok (read_whole, DecodeState.complete)
    unfolding parse_read init_http
    parse_read-parsed =
        ap
          (λ o.
            o >>= λ r. ok (record (loaded text) { http_parse = r }, read_status (length text) r))
          parse-parsed
        ∙ ap (λ (st : DecodeState). ok (read_whole, st))
            (status-ended (length text) (as_request m) get)

    idle : IsIdle read_whole
    unfolding init_http
    idle = record { sized = length-replicate {A = ℕ} 5120 0; no_text = refl; no_data = refl }

    module _ (file : FileStat) (shown : file.others_read ≡ true) (plain : file.is_dir ≡ false)
        (head_fits : length (file_head (length file.contents) false) + 1 < max_buff_size)
        (small : length file.contents + max_buff_size < 2 ^ 31) where
      abbrev head : Bytes
      head = file_head (length file.contents) false

      -- the connection after HttpParse
      abbrev ready_http : Http
      ready_http = (parse_write (some file) DecodeState.complete read_whole).0

      ready :
          ((parse_write (some file) DecodeState.complete read_whole).1 ≡ true)
          × IsReady head file.contents ready_http
      unfolding init_http
      ready = parse_write-IsReady file read_whole idle refl shown plain head_fits small

      http_parse-ready :
          (w : World)
          → http_parse (some file) (loaded text) w
            ≡ ok (ready_http, mod_fd ready_http.sock_fd epoll_out ready_http.trigger_mode w)
      unfolding http_parse answer is_opened
      http_parse-ready w =
          ap (λ o. o >>= λ r. ok (answer (some file) r.1 r.0 w)) parse_read-parsed ∙ rw ready.0 refl

      kept :
          (ready_http.linger ≡ false)
          × (ready_http.sock_fd ≡ some fd)
          × (ready_http.trigger_mode ≡ false)
      unfolding init_http
      kept = parse_write-kept file read_whole idle refl shown plain head_fits small

      -- A GET request in print, of whatever path with no parameters in it, and with no Content-Length,
      -- of at most 5120 bytes, arrives at once on a connection that was just accepted. What is served
      -- is m_aFile, ./1.html, and not what the path names; stat finds it to be a file that others may
      -- read and no directory, of less than 2 ^ 31 bytes with the write buffer, whose head fits that
      -- buffer. Read stores the request and returns true, HttpParse waits for the socket to be
      -- writable, and Write, in any number of calls of writev of which the first takes the whole head,
      -- sends the status line, the headers with the length of that file, and the file, and then
      -- returns false, to close the connection.
      pub get-Answers :
          (w : World) (n : ℕ) (ns : List ℕ)
          → length head ≤ n
          → AddUpTo (length head + length file.contents) (n ∷ ns)
          → (read (waiting text ∷ []) fresh ≡ (loaded text, returned true))
            × Succeeds
                (Answers fd (head ++ file.contents) w (n ∷ ns))
                (http_parse (some file) (loaded text) w)
      get-Answers w n ns whole total = (
        read-loaded text (omega arith) fits,
        rw (http_parse-ready w) (
            succeeds (
              rw (kept.1, kept.2) refl,
              λ v.
                  subst
                    (λ l.
                      Succeeds (Delivers (head ++ file.contents) l)
                        (write (takes (n ∷ ns)) ready_http v))
                    kept.0
                    (write-Delivers head file.contents ready_http v n ns ready.1 whole total),
            )),
      )
