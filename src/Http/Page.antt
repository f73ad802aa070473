-- ===== src/Http/Page.antt =====
-- The text of a whole response.
use mathlib.Core.List.{append_assoc}
use mathlib.Core.Path.{subst}
use wslyh.Base.{
  Bool, Bytes, ap, arith, codes, decimal, if◌then◌else◌, length, length-append, sym, to_int, true,
  ℕ, ℤ, ◌++◌, ◌+◌, ◌<◌, ◌∙◌, ◌≡◌,
}
use wslyh.Http.{Http, max_buff_size}
use wslyh.Http.Lines.{
  add_blank_line, add_content, add_content_length, add_content_type, add_headers, add_line,
  add_linger, add_status_line, crlf, status_line, ◌then_also◌,
}
use wslyh.Http.Respond.{error_page}
use wslyh.Http.Composed.{IsSized, SameRest, add_line-Lined, composed}

-- `h'` is `h` with the text appended to the response.
pub record Adds (text : Bytes) (h h' : Http) : Type 0 where
  pub sized : IsSized h'
  pub rest : SameRest h' h
  pub text_is : composed h' ≡ composed h ++ text
  pub idx_is : h'.write_idx ≡ h.write_idx + length text

-- there is room for the text, and a NUL
abbrev pub HasRoom : Bytes → Http → Type 0
HasRoom text h = IsSized h × (h.write_idx + length text + 1 < max_buff_size)

-- it was appended, and the call returned true
abbrev pub Added : Bytes → Http → Http × Bool → Type 0
Added text h r = Adds text h r.0 × (r.1 ≡ true)

add_line-Added : (text : Bytes) (h : Http) → HasRoom text h → Added text h (add_line text h)
add_line-Added text h r =
    let l = add_line-Lined text h r.0 in
    let f = l.fits r.1 in
    (record { sized = l.sized; rest = l.rest; text_is = f.1; idx_is = f.2 }, f.0)

Adds-trans : (a b : Bytes) {f g h : Http} → Adds a f g → Adds b g h → Adds (a ++ b) f h
Adds-trans a b {f = f} {h = h} p q = record {
  sized = q.sized;
  rest =
      q.rest
      ∙ ap (λ (x : Http). record x { write_data = h.write_data; write_idx = h.write_idx }) p.rest;
  text_is = q.text_is ∙ ap (λ x. x ++ b) p.text_is ∙ append_assoc (composed f) a b;
  idx_is = omega (arith, p.idx_is, q.idx_is, length-append {0} a b);
}

then_also-Added :
    (a b : Bytes) (h : Http) (r : Http × Bool) (f : Http → Http × Bool)
    → Added a h r
    → Added b r.0 (f r.0)
    → Added (a ++ b) h (r then_also f)
then_also-Added a b h r f p q = rw p.1 (Adds-trans a b p.0 q.0, q.1)

abbrev pub connection_line : Bool → Bytes
connection_line linger =
    codes "Connection:" ++ (if linger then codes "keep-alive" else codes "close") ++ crlf

abbrev pub content_length_line : ℤ → Bytes
content_length_line n = codes "Content-Length:" ++ decimal n ++ crlf

abbrev pub content_type_line : Bytes
content_type_line = codes "Content-Type:text/html" ++ crlf

-- the header lines and the blank line
abbrev pub headers_text : ℤ → Bool → Bytes
headers_text n linger = content_length_line n ++ connection_line linger ++ content_type_line ++ crlf

linger-rest : (g h : Http) → SameRest g h → g.linger ≡ h.linger
linger-rest g h e = ap (λ (x : Http). x.linger) e

room_for : (a b : Bytes) (h h' : Http) → HasRoom (a ++ b) h → Adds a h h' → HasRoom b h'
room_for a b h h' r p = (p.sized, omega (arith, r.1, p.idx_is, length-append {0} a b))

room_before : (a b : Bytes) (h : Http) → HasRoom (a ++ b) h → HasRoom a h
room_before a b h r = (r.0, omega (arith, r.1, length-append {0} a b))

-- a step of a chain of lines that has room for all of it
chain :
    (a b : Bytes) (h : Http) (r : Http × Bool) (f : Http → Http × Bool)
    → HasRoom (a ++ b) h
    → Added a h r
    → ((g : Http) → g.linger ≡ h.linger → HasRoom b g → Added b g (f g))
    → Added (a ++ b) h (r then_also f)
chain a b h r f room p k =
    then_also-Added a b h r f p (k r.0 (linger-rest r.0 h p.0.rest) (room_for a b h r.0 room p.0))

add_linger-Added :
    (l : Bool) (h : Http)
    → h.linger ≡ l
    → HasRoom (connection_line l) h
    → Added (connection_line l) h (add_linger h)
unfolding add_linger
add_linger-Added l h e r =
    subst (λ x. Added (connection_line x) h (add_linger h)) e
      (add_line-Added (connection_line h.linger) h
        (subst (λ x. HasRoom (connection_line x) h) (sym e) r))

pub add_headers-Added :
    (n : ℤ) (h : Http)
    → HasRoom (headers_text n h.linger) h
    → Added (headers_text n h.linger) h (add_headers n h)
unfolding add_headers add_content_length add_content_type add_blank_line
add_headers-Added n h room =
    let a = content_length_line n in
    let b = connection_line h.linger in
    let c = content_type_line in
    let ab =
      chain a b h _ add_linger (room_before (a ++ b) c h (room_before (a ++ b ++ c) crlf h room))
        (add_line-Added a h
          (room_before a b h (room_before (a ++ b) c h (room_before (a ++ b ++ c) crlf h room))))
        (λ g e r. add_linger-Added h.linger g e r) in
    let abc =
      chain (a ++ b) c h _ (add_line c) (room_before (a ++ b ++ c) crlf h room) ab
        (λ g e r. add_line-Added c g r) in
    chain (a ++ b ++ c) crlf h _ (add_line crlf) room abc (λ g e r. add_line-Added crlf g r)

-- the text of the page that an error branch makes
abbrev pub page_text : ℕ → Bytes → Bytes → Bool → Bytes
page_text status title form linger =
    status_line status title ++ headers_text (to_int (length form)) linger ++ form

-- one call after another, whose results are dropped but for the last
sequence :
    (a b : Bytes) (h : Http) (r : Http × Bool) (f : Http → Http × Bool)
    → HasRoom (a ++ b) h
    → Added a h r
    → ((g : Http) → g.linger ≡ h.linger → HasRoom b g → Added b g (f g))
    → Added (a ++ b) h (f r.0)
sequence a b h r f room p k =
    let q = k r.0 (linger-rest r.0 h p.0.rest) (room_for a b h r.0 room p.0) in
    (Adds-trans a b p.0 q.0, q.1)

headers_for :
    (n : ℤ) (l : Bool) (g : Http)
    → g.linger ≡ l
    → HasRoom (headers_text n l) g
    → Added (headers_text n l) g (add_headers n g)
headers_for n l g e r =
    subst (λ x. Added (headers_text n x) g (add_headers n g)) e
      (add_headers-Added n g (subst (λ x. HasRoom (headers_text n x) g) (sym e) r))

pub head-Added :
    (status : ℕ) (title : Bytes) (n : ℤ) (h : Http)
    → HasRoom (status_line status title ++ headers_text n h.linger) h
    → Added
        (status_line status title ++ headers_text n h.linger)
        h
        (add_headers n (add_status_line status title h).0)
unfolding add_status_line
head-Added status title n h room =
    sequence (status_line status title) (headers_text n h.linger) h _ (add_headers n) room
      (add_line-Added (status_line status title) h
        (room_before (status_line status title) (headers_text n h.linger) h room))
      (λ g e r. headers_for n h.linger g e r)

-- An error branch of ParseWrite composes the status line, the headers with the length of the page and
-- the page, if they fit into the write buffer behind what is there, and returns true; it changes
-- nothing of the connection but the write buffer and its position.
pub error_page-Added :
    (status : ℕ) (title form : Bytes) (h : Http)
    → HasRoom (page_text status title form h.linger) h
    → Added (page_text status title form h.linger) h (error_page status title form h)
unfolding error_page add_content
error_page-Added status title form h room =
    let head = status_line status title ++ headers_text (to_int (length form)) h.linger in
    sequence head form h _ (add_line form) room
      (head-Added status title (to_int (length form)) h (room_before head form h room))
      (λ g e r. add_line-Added form g r)
