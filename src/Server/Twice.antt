-- ===== src/Server/Twice.antt =====
-- A connection that HttpParse closes, whose timer stays.
use wslyh.Base.{
  List, Mem, Option, [], ap, arith, false, length, minus_ℕ, ok, pos, refl, some, sym, update, ℕ,
  ◌+◌, ◌==◌, ◌∙◌, ◌≡◌,
}
use wslyh.Server.Quiet.{call_back-count}
use wslyh.Request.{DecodeState}
use wslyh.Http.{Http, World, close_fd, close_http, remove_fd}
use wslyh.Http.Respond.{FileStat, answer, is_opened, parse_write}
use wslyh.Server.{Server, call_back, call_timer}
use wslyh.Server.Opened.{length-remove, mem-remove, opened_from, remove, remove-absent}
use wslyh.Server.Sound.{Watches}
use wslyh.Server.Cases.{Good, call_back-opened, opened}
use mathlib.Core.Path.{subst}

-- the server after HttpParse of the connection, from its status on
abbrev pub answered : ℕ → Option FileStat → DecodeState → Http → Server → Server
answered fd file status h s = record s {
  https = update s.https fd (answer file status h s.world).0;
  world = (answer file status h s.world).1;
}

-- The timer of the closed descriptor `fd` still has its callback, which closes nothing that is open,
-- and leaves a count of one less than the open connections.
pub record ClosesTwice (now fd : ℕ) (s t : Server) : Type 0 where
  pub closed : opened t ≡ remove fd (opened s)
  pub not_open : ¬ Mem fd (opened t)
  pub counted : t.world.http_cnt ≡ pos (length (opened t))
  pub watches : Watches now t.heap t.timer_of fd
  pub again : call_timer (t.timer_of fd) fd t ≡ ok (call_back fd t)
  pub none_closed : opened (call_back fd t) ≡ opened t
  pub miscounted : (call_back fd t).world.http_cnt ≡ minus_ℕ (pos (length (opened t))) 1

module _ (now fd : ℕ) (s : Server) (good : Good now s) (m : Mem fd (opened s)) where
  -- a state that differs from `s` by the calls of the callback only
  module _ (t : Server) (same_heap : t.heap ≡ s.heap) (same_timers : t.timer_of ≡ s.timer_of)
      (same_world : t.world ≡ (call_back fd s).world) where
    still_watches : Watches now t.heap t.timer_of fd
    still_watches =
        subst (λ h. Watches now h t.timer_of fd) (sym same_heap)
          (subst (λ f. Watches now s.heap f fd) (sym same_timers) (good.watched fd m))

    now_closed : opened t ≡ remove fd (opened s)
    now_closed = ap (λ (w : World). opened_from w.effects []) same_world ∙ call_back-opened fd s

    gone : ¬ Mem fd (opened t)
    gone x = (mem-remove fd fd (opened s) (subst (Mem fd) now_closed x)).1 refl

    one_less : minus_ℕ (pos (length (opened s))) 1 ≡ pos (length (opened t))
    one_less =
        let fewer = length-remove fd (opened s) good.nodup m in
        let same = ap (λ (o : List ℕ). length o) now_closed in
        let e : length (opened s) ≡ length (opened t) + 1 = omega (arith, fewer, same) in
        ap (λ n. minus_ℕ (pos n) 1) e ∙ ground arith

    count_now : t.world.http_cnt ≡ pos (length (opened t))
    count_now =
        ap (λ (w : World). w.http_cnt) same_world
        ∙ call_back-count fd s
        ∙ ap (λ n. minus_ℕ n 1) good.counted
        ∙ one_less

    called_again : call_timer (t.timer_of fd) fd t ≡ ok (call_back fd t)
    unfolding call_timer
    called_again =
        let z : (t.timer_of fd == 0) ≡ false = ground (arith, still_watches.real) in
        rw (z, still_watches.calls) refl

    twice : ClosesTwice now fd s t
    twice = record {
      closed = now_closed;
      not_open = gone;
      counted = count_now;
      watches = still_watches;
      again = called_again;
      none_closed = call_back-opened fd t ∙ remove-absent fd (opened t) gone;
      miscounted = call_back-count fd t ∙ ap (λ n. minus_ℕ n 1) count_now;
    }

  -- When the response of an open connection cannot be composed, HttpParse closes its descriptor and
  -- counts the connection off, but its timer stays in the heap with its callback. When that is called,
  -- the descriptor is closed again, which no longer is a connection's, and m_iHttpCnt becomes one less
  -- than the number of the connections that are open.
  pub answered-ClosesTwice :
      (file : Option FileStat) (status : DecodeState) (h : Http)
      → is_opened status ≡ false
      → (parse_write file status h).1 ≡ false
      → (parse_write file status h).0.sock_fd ≡ some fd
      → ClosesTwice now fd s (answered fd file status h s)
  unfolding answer close_http close_fd remove_fd call_back
  answered-ClosesTwice file status h at_end fails at =
      twice (answered fd file status h s) refl refl (rw (at_end, fails, at) refl)
