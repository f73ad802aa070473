-- ===== src/Http/Unanswered.antt =====
-- A whole request that ParseRead leaves without an answer (http/http.cpp).
use wslyh.Request.Printed.{print-tail}
use wslyh.Request.Chars.{atoi}
use wslyh.Request.Message.{IsMessage, Message, as_request, parse_internal-print, print}
use wslyh.Request.Fields.{insert_all}
use wslyh.Request.Step.{content_length}
use wslyh.Request.Ending.{end_state, ended}
use wslyh.Request.Loop.{parse_internal}
use wslyh.Request.{DecodeState, Request, find, init}
use wslyh.Http.Respond.{FileStat, http_parse}
use wslyh.Http.Transfer.{read, returned, waiting}
use wslyh.Http.{Http, World, cleared, epoll_in, init_http, max_buff_size, mod_fd}
use wslyh.Base.{
  Bytes, Option, [], ap, arith, drop, false, is_positive, length, length-append, ok, refl, some,
  sym, true, ℕ, ℤ, ◌++◌, ◌+◌, ◌∙◌, ◌∷◌, ◌≡◌, ◌≤◌,
}
use wslyh.Http.Waiting.{http_parse-complete_at_end}
use wslyh.Http.Session.{fresh, loaded, read-loaded}
use mathlib.Core.Path.{subst}

-- the request that ParseInternal makes
abbrev pub whole : Message → Request
whole m = ended (length (print m [])) (as_request m) DecodeState.complete

module _ (old : Http) (fd : ℕ) (w0 : World) (m : Message) (is_message : IsMessage m)
    (fits : length (print m []) ≤ max_buff_size) (value : Bytes) (n : ℤ)
    (found : find content_length (insert_all m.fields []) ≡ some value) (number : atoi value ≡ ok n)
    (no_body : is_positive n ≡ false) where
  abbrev text : Bytes
  text = print m []

  parse-whole :
      parse_internal (text ++ drop (length text) cleared) (length text) (init old.http_parse)
      ≡ ok (whole m)
  parse-whole =
      let zeros = drop (length text) cleared in
      let printed = print-tail m zeros in
      let sizes : length text + length zeros ≡ length (print m zeros) =
        sym (ap (λ (b : Bytes). length b) printed ∙ length-append text zeros) in
      let at_end : end_state (some value) ≡ ok DecodeState.complete = rw (number, no_body) refl in
      subst (λ b. parse_internal b (length text) (init old.http_parse) ≡ ok (whole m)) printed
        (parse_internal-print m zeros (length text) old.http_parse is_message sizes
          ∙ rw (found, at_end) refl)

  -- A request in print, whose Content-Length is a number that is not positive, of at most 5120 bytes,
  -- arrives at once on a connection that was just accepted. Read stores it and returns true, and
  -- ParseInternal parses all of it; but HttpParse, whatever file there is, answers nothing: it keeps
  -- the complete request and waits for more input.
  pub http_parse-unanswered :
      (file : Option FileStat) (w : World)
      → (read (waiting text ∷ []) (fresh old fd w0) ≡ (loaded old fd w0 text, returned true))
        × (http_parse file (loaded old fd w0 text) w
            ≡ ok (
              record (loaded old fd w0 text) { http_parse = whole m },
              mod_fd (some fd) epoll_in false w,
            ))
  unfolding init_http
  http_parse-unanswered file w = (
    read-loaded old fd w0 text (omega arith) fits,
    http_parse-complete_at_end file (loaded old fd w0 text) w (whole m) parse-whole refl refl,
  )
