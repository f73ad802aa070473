-- ===== src/Http/Tests.antt =====
-- A connection at work, and its theorems at small inputs.
use wslyh.Request.Step.{content_length}
use wslyh.Http.Unanswered.{http_parse-unanswered, whole}
use wslyh.Http.Session.{Answers, fresh, get-Answers, loaded}
use wslyh.Request.Message.{IsMessage, Message, print}
use wslyh.Base.{
  Bytes, Succeeds, [], arith, codes, decimal, equal, false, fault, length, length-replicate, none,
  ok, out_of_bounds, pos, refl, some, to_int, true, ℕ, ◌++◌, ◌+◌, ◌∷◌, ◌≡◌,
}
use wslyh.Request.{DecodeState, Request, find, insert}
use wslyh.Request.Chars.{atoi, isblank, isdigit, isupper}
use wslyh.Http.{Http, World, cleared, epoll_in, max_buff_size, mod_fd, reset}
use wslyh.Http.Lines.{status_line}
use wslyh.Http.Respond.{
  FileStat, error_400_form, error_400_title, http_parse, is_invalid, parse_write,
}
use wslyh.Http.Transfer.{read, returned, taken, waiting, write}
use wslyh.Http.Composed.{composed}
use wslyh.Http.Page.{page_text}
use wslyh.Http.Serve.{IsIdle, error_page-not_sent}
use wslyh.Http.Deliver.{Delivers, IsReady, more, one, takes, write-Delivers}
use wslyh.Http.Partial.{write-partial_head}
use wslyh.Http.Ready.{file_head}

abbrev fresh_request : Request
fresh_request = record {
  method = [];
  url = [];
  request_params = [];
  protocol = [];
  version = [];
  headers = [];
  body = [];
  next_pos = 0;
  is_open = false;
  decode_state = DecodeState.start;
}

abbrev idle : Http
idle = record {
  sock_fd = some 5;
  read_data = cleared;
  write_data = cleared;
  file_addr = none;
  data_len = pos 0;
  data_send_len = 0;
  trigger_mode = false;
  read_idx = 0;
  write_idx = 0;
  http_parse = fresh_request;
  iv_head = record { iov_base = pos 0; iov_len = 0 };
  iv_file = record { iov_base = pos 0; iov_len = 0 };
  linger = false;
}

abbrev world : World
world = record { http_cnt = pos 1; effects = [] }

idle-IsIdle : IsIdle idle
idle-IsIdle = record {
  sized = length-replicate {A = ℕ} max_buff_size 0;
  no_text = refl;
  no_data = refl;
}

error_page-not_sent_example :
    ((parse_write none DecodeState.invalid idle).1 ≡ true)
    × (composed (parse_write none DecodeState.invalid idle).0
        ≡ page_text 400 error_400_title error_400_form false)
    × (write (taken 9 ∷ []) (parse_write none DecodeState.invalid idle).0 world
        ≡ ok (record {
          http = reset (parse_write none DecodeState.invalid idle).0;
          world =
              mod_fd
                (parse_write none DecodeState.invalid idle).0.sock_fd
                epoll_in
                (parse_write none DecodeState.invalid idle).0.trigger_mode
                world;
          sent = [];
          progress = returned true;
        }))
unfolding is_invalid
error_page-not_sent_example =
    error_page-not_sent none DecodeState.invalid idle world (taken 9 ∷ [])
      (page_text 400 error_400_title error_400_form false) idle-IsIdle refl

-- a response of ten and three bytes that is ready to be sent
abbrev ready : Http
ready = record idle {
  write_data = codes "ABCDEFGHIJ----";
  write_idx = 10;
  file_addr = some (codes "xyz");
  data_len = pos 13;
  iv_head = record { iov_base = pos 0; iov_len = 10 };
  iv_file = record { iov_base = pos 0; iov_len = 3 };
}

ready-IsReady : IsReady (codes "ABCDEFGHIJ") (codes "xyz") ready
ready-IsReady = record {
  fits = omega arith;
  head_is = refl;
  head_len = refl;
  file_is = refl;
  nothing_sent = refl;
  all_data = refl;
  iv_head_is = refl;
  iv_file_is = refl;
}

write-Delivers_example :
    Succeeds
      (Delivers (codes "ABCDEFGHIJ" ++ codes "xyz") false)
      (write (takes (11 ∷ 2 ∷ [])) ready world)
write-Delivers_example =
    write-Delivers (codes "ABCDEFGHIJ") (codes "xyz") ready world 11 (2 ∷ []) ready-IsReady
      (omega arith) (more 11 2 (omega arith) (omega arith) refl (one 2 (omega arith) refl))

write-partial_head_example :
    write (taken 6 ∷ taken 3 ∷ taken 1 ∷ []) ready world ≡ fault out_of_bounds
write-partial_head_example =
    write-partial_head (codes "ABCDEFGHIJ") (codes "xyz") ready 6 3 ready-IsReady (omega arith)
      (omega arith) (omega arith) world 1 []

abbrev page : FileStat
page = record { others_read = true; is_dir = false; contents = codes "hi" }

abbrev hello : Message
hello = record {
  method = record { first = b'G'; more = codes "ET" };
  path = codes "a.html";
  protocol = record { first = b'H'; more = codes "TTP" };
  major = record { first = b'1'; more = [] };
  minor = record { first = b'1'; more = [] };
  fields = (codes "Host", codes "h") ∷ [];
}

hello-IsMessage : IsMessage hello
unfolding isupper isblank isdigit
hello-IsMessage = (
  (refl, refl),
  refl,
  (refl, refl),
  (refl, refl),
  (refl, refl),
  ((refl, refl, refl, refl, refl), tt),
)

abbrev response : Bytes
response = file_head 2 false ++ codes "hi"

-- the whole response, in one call of writev
get-Answers_example :
    (read (waiting (print hello []) ∷ []) (fresh idle 5 world)
      ≡ (loaded idle 5 world (print hello []), returned true))
    × Succeeds
        (Answers 5 response world ((length (file_head 2 false) + 2) ∷ []))
        (http_parse (some page) (loaded idle 5 world (print hello [])) world)
unfolding status_line decimal to_int equal find insert
get-Answers_example =
    get-Answers idle 5 world hello hello-IsMessage (omega arith) refl refl page refl refl
      (omega arith) (omega arith) world (length (file_head 2 false) + 2) [] (omega arith)
      (one (length (file_head 2 false) + 2) (omega arith) refl)

-- a request with an empty body
abbrev empty_post : Message
empty_post = record hello {
  method = record { first = b'P'; more = codes "OST" };
  fields = (content_length, codes "0") ∷ [];
}

empty_post-IsMessage : IsMessage empty_post
unfolding isupper isblank isdigit
empty_post-IsMessage = (
  (refl, refl),
  refl,
  (refl, refl),
  (refl, refl),
  (refl, refl),
  ((refl, refl, refl, refl, refl), tt),
)

http_parse-unanswered_example :
    (read (waiting (print empty_post []) ∷ []) (fresh idle 5 world)
      ≡ (loaded idle 5 world (print empty_post []), returned true))
    × (http_parse (some page) (loaded idle 5 world (print empty_post [])) world
        ≡ ok (
          record (loaded idle 5 world (print empty_post [])) { http_parse = whole empty_post },
          mod_fd (some 5) epoll_in false world,
        ))
unfolding find insert equal atoi
http_parse-unanswered_example =
    http_parse-unanswered idle 5 world empty_post empty_post-IsMessage (omega arith) (codes "0")
      (pos 0) refl refl refl (some page) world
