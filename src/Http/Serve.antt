-- ===== src/Http/Serve.antt =====
-- The pages that ParseWrite composes, and what Write then makes of them.
use mathlib.Core.Path.{subst}
use wslyh.Base.{
  Bool, Bool-cases, Bytes, List, Option, [], ap, arith, decimal, false, if◌then◌else◌, inl, inr,
  length, none, not, ok, pos, refl, some, sym, take, to_int, true, ℕ, ◌++◌, ◌<◌, ◌∙◌, ◌≡◌,
}
use wslyh.Request.{DecodeState}
use wslyh.Http.{Http, World, epoll_in, mod_fd, reset}
use wslyh.Http.Lines.{status_line}
use wslyh.Http.Respond.{
  FileStat, error_400_form, error_400_title, error_403_form, error_403_title, error_404_form,
  error_404_title, error_500_form, error_500_title, error_page, is_complete, is_invalid,
  parse_write, serve,
}
use wslyh.Http.Transfer.{Written, returned, write}
use wslyh.Http.Composed.{IsSized, composed}
use wslyh.Http.Page.{HasRoom, error_page-Added, page_text}

-- A connection with an empty response, as Init and Write leave it.
pub record IsIdle (h : Http) : Type 0 where
  pub sized : IsSized h
  pub no_text : h.write_idx ≡ 0
  pub no_data : h.data_len ≡ pos 0

-- The page for a request that no file answers.
abbrev pub error_text : Option FileStat → DecodeState → Bool → Option Bytes
error_text file status linger =
    if is_invalid status
    then some (page_text 400 error_400_title error_400_form linger)
    else if not (is_complete status)
    then some (page_text 500 error_500_title error_500_form linger)
    else elim file [
      | none ↦ some (page_text 404 error_404_title error_404_form linger)
      | some f ↦
          if not f.others_read
          then some (page_text 403 error_403_title error_403_form linger)
          else if f.is_dir
          then some (page_text 404 error_404_title error_404_form linger)
          else none
    ]

page_length :
    (linger : Bool)
    → (length (page_text 400 error_400_title error_400_form linger) < 300)
      × (length (page_text 403 error_403_title error_403_form linger) < 300)
      × (length (page_text 404 error_404_title error_404_form linger) < 300)
      × (length (page_text 500 error_500_title error_500_form linger) < 300)
unfolding status_line decimal to_int
page_length true = omega arith
page_length false = omega arith

idle_room : (text : Bytes) (h : Http) → IsIdle h → length text < 300 → HasRoom text h
idle_room text h i l = (i.sized, omega (arith, i.no_text))

-- an error page, composed in an idle connection
error_page-idle :
    (status : ℕ) (title form : Bytes) (h : Http)
    → IsIdle h
    → length (page_text status title form h.linger) < 300
    → ((error_page status title form h).1 ≡ true)
      × (composed (error_page status title form h).0 ≡ page_text status title form h.linger)
      × ((error_page status title form h).0.data_len ≡ pos 0)
error_page-idle status title form h i l =
    let a =
      error_page-Added status title form h
        (idle_room (page_text status title form h.linger) h i l) in
    (a.1, a.0.text_is ∙ nothing h i, ap (λ (x : Http). x.data_len) a.0.rest ∙ i.no_data)
  where
    nothing :
        (h : Http)
        → IsIdle h
        → composed h ++ page_text status title form h.linger ≡ page_text status title form h.linger
    nothing h i =
        subst
          (λ n.
            take n h.write_data ++ page_text status title form h.linger
            ≡ page_text status title form h.linger)
          (sym i.no_text) refl

-- What an error leaves: the page is composed, and no data is to be sent.
abbrev pub Paged : Option Bytes → Http × Bool → Type 0
Paged none r = Unit
Paged (some text) r = (r.1 ≡ true) × (composed r.0 ≡ text) × (r.0.data_len ≡ pos 0)

parse_write-Paged :
    (file : Option FileStat) (status : DecodeState) (h : Http)
    → IsIdle h
    → Paged (error_text file status h.linger) (parse_write file status h)
unfolding parse_write serve
parse_write-Paged file status h i = elim (Bool-cases (is_invalid status)) [
  | inl bad ↦
      rw bad (error_page-idle 400 error_400_title error_400_form h i (page_length h.linger).0)
  | inr valid ↦ elim (Bool-cases (is_complete status)) [
    | inr other ↦
        rw (valid, other)
          (error_page-idle 500 error_500_title error_500_form h i (page_length h.linger).3)
    | inl done ↦ rw (valid, done) (on_file file)
  ]
]
  where
    on_file :
        (file : Option FileStat)
        → Paged
            (elim file [
              | none ↦ some (page_text 404 error_404_title error_404_form h.linger)
              | some f ↦
                  if not f.others_read
                  then some (page_text 403 error_403_title error_403_form h.linger)
                  else if f.is_dir
                  then some (page_text 404 error_404_title error_404_form h.linger)
                  else none
            ])
            (serve file h)
    on_file none = error_page-idle 404 error_404_title error_404_form h i (page_length h.linger).2
    on_file (some f) = elim (Bool-cases f.others_read) [
      | inr hidden ↦
          rw hidden
            (error_page-idle 403 error_403_title error_403_form h i (page_length h.linger).1)
      | inl shown ↦ elim (Bool-cases f.is_dir) [
        | inl dir ↦
            rw (shown, dir)
              (error_page-idle 404 error_404_title error_404_form h i (page_length h.linger).2)
        | inr plain ↦ rw (shown, plain) tt
      ]
    ]

-- For a request that no file answers, ParseWrite on an idle connection composes the error page and
-- returns true, but the call of Write that follows sends no byte: it clears the buffers and waits for
-- input, whatever writev would do.
pub error_page-not_sent :
    (file : Option FileStat) (status : DecodeState) (h : Http) (w : World) (events : List Written)
    (text : Bytes)
    → IsIdle h
    → error_text file status h.linger ≡ some text
    → ((parse_write file status h).1 ≡ true)
      × (composed (parse_write file status h).0 ≡ text)
      × (write events (parse_write file status h).0 w
          ≡ ok (record {
            http = reset (parse_write file status h).0;
            world =
                mod_fd
                  (parse_write file status h).0.sock_fd
                  epoll_in
                  (parse_write file status h).0.trigger_mode
                  w;
            sent = [];
            progress = returned true;
          }))
error_page-not_sent file status h w events text i e =
    let p : Paged (some text) (parse_write file status h) =
      subst (λ x. Paged x (parse_write file status h)) e (parse_write-Paged file status h i) in
    (p.0, p.1, unsent (parse_write file status h).0 p.2)
  where
    unsent :
        (g : Http)
        → g.data_len ≡ pos 0
        → write events g w
          ≡ ok (record {
            http = reset g;
            world = mod_fd g.sock_fd epoll_in g.trigger_mode w;
            sent = [];
            progress = returned true;
          })
    unsent g z = unfold write in ground arith
