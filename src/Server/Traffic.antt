-- ===== src/Server/Traffic.antt =====
-- What the cases of EPOLLIN and EPOLLOUT do to the invariant of the server.
use wslyh.Base.{
  Bool, Bool-cases, Bytes, List, Mem, Option, Outcome, Succeeds, Succeeds-weaken, [], ap, arith,
  false, fault, inl, inr, is_positive, is_zero, none, ok, refl, some, sym, take, true, update, ℕ,
  ◌++◌, ◌==◌, ◌>>=◌, ◌∙◌, ◌∷◌, ◌≡◌,
}
use wslyh.Http.{Effect, Event, Http, World, mod_fd}
use wslyh.Http.Transfer.{
  Progress, Received, Writing, Written, advance, count_sent, finish_write, gather, read, write,
  write_loop,
}
use wslyh.Server.{
  Server, after_failed_read, after_read, append_task, on_closed, on_readable, on_writable, put_off,
}
use wslyh.Server.Opened.{opened_from, opened_from-append, remove}
use wslyh.Server.Sound.{IsSound}
use wslyh.Server.Cases.{Good, call_back-opened, on_closed-Good, opened, put_off-Good}
use mathlib.Core.Path.{subst}

-- the value, where there is one, satisfies `P`
abbrev WhereOk : {A : Type 0} → (A → Type 0) → Outcome A → Type 0
WhereOk P (ok v) = P v
WhereOk P (fault why) = Unit

WhereOk-bind :
    {A B : Type 0} (P : B → Type 0) (o : Outcome A) (f : A → Outcome B)
    → ((v : A) → WhereOk P (f v))
    → WhereOk P (o >>= f)
WhereOk-bind P (ok v) f k = k v
WhereOk-bind P (fault why) f k = tt

-- the same count, and the same descriptors open
abbrev pub SameOpen : World → World → Type 0
SameOpen w v = (w.http_cnt ≡ v.http_cnt) × (opened_from w.effects [] ≡ opened_from v.effects [])

pub mod_fd-SameOpen :
    (fd : Option ℕ) (ev : Event) (trigger_mode : Bool) (w : World)
    → SameOpen (mod_fd fd ev trigger_mode w) w
unfolding mod_fd
mod_fd-SameOpen none ev trigger_mode w = (refl, refl)
mod_fd-SameOpen (some fd) ev trigger_mode w =
    (refl, opened_from-append w.effects (Effect.ctl_mod fd ev trigger_mode ∷ []) [])

write_loop-SameOpen :
    (events : List Written) (h : Http) (w : World) (sent : Bytes)
    → WhereOk (λ r. SameOpen r.world w) (write_loop events h w sent)
unfolding write_loop finish_write
write_loop-SameOpen [] h w sent = (refl, refl)
write_loop-SameOpen (Written.would_block ∷ rest) h w sent =
    mod_fd-SameOpen h.sock_fd Event.epoll_out h.trigger_mode w
write_loop-SameOpen (Written.failed ∷ rest) h w sent = (refl, refl)
write_loop-SameOpen (Written.taken n ∷ rest) h w sent =
    WhereOk-bind (λ r. SameOpen r.world w) (gather h) _
      (λ bytes.
        let h' = count_sent n h in
        let onward = write_loop-SameOpen rest (advance h') w (sent ++ take n bytes) in
        elim (Bool-cases (is_positive h'.data_len)) [
          | inl more ↦ rw more onward
          | inr done ↦ rw done (mod_fd-SameOpen h'.sock_fd Event.epoll_in h'.trigger_mode w)
        ])

write-SameOpen :
    (events : List Written) (h : Http) (w : World)
    → WhereOk (λ r. SameOpen r.world w) (write events h w)
unfolding write
write-SameOpen events h w = elim (Bool-cases (is_zero h.data_len)) [
  | inl none_left ↦ rw none_left (mod_fd-SameOpen h.sock_fd Event.epoll_in h.trigger_mode w)
  | inr more ↦ rw more (write_loop-SameOpen events h w [])
]

-- the world of the server may change like this
pub Good-with_world :
    (now : ℕ) (s : Server) (w : World)
    → Good now s
    → SameOpen w s.world
    → Good now (record s { world = w })
Good-with_world now s w good (count, same) =
    subst (λ n. IsSound now s.heap s.timer_of n (opened_from w.effects [])) (sym count)
      (subst (λ o. IsSound now s.heap s.timer_of s.world.http_cnt o) (sym same) good)

-- what a case leaves open
abbrev pub after_transfer : ℕ → Bool → List ℕ → List ℕ
after_transfer fd true o = o
after_transfer fd false o = remove fd o

module _ (now : ℕ) (s : Server) (good : Good now s) (fd : ℕ) (m : Mem fd (opened s)) where
  pub kept-Good : Succeeds (λ t. Good now t × (opened t ≡ opened s)) (put_off (s.timer_of fd) now s)
  kept-Good =
      Succeeds-weaken (put_off-Good now s good fd m)
        (λ t g. (g.0, ap (λ (w : World). opened_from w.effects []) g.1))

  pub closed-Good : Succeeds (λ t. Good now t × (opened t ≡ remove fd (opened s))) (on_closed fd s)
  closed-Good =
      Succeeds-weaken (on_closed-Good now s good fd m)
        (λ t g. (g.0, ap (λ (w : World). opened_from w.effects []) g.1 ∙ call_back-opened fd s))

  has_timer : (s.timer_of fd == 0) ≡ false
  has_timer = let w = good.watched fd m in ground (arith, w.real)

  failed-Good :
      Succeeds (λ t. Good now t × (opened t ≡ remove fd (opened s))) (after_failed_read fd s)
  unfolding after_failed_read
  failed-Good = let w = good.watched fd m in rw (has_timer, w.calls) closed-Good

module _ (now : ℕ) (s : Server) (good : Good now s) (fd : ℕ) (m : Mem fd (opened s)) where
  pub on_readable-Good :
      (events : List Received) (h : Http) (kept : Bool)
      → read events (s.https fd) ≡ (h, Progress.returned kept)
      → Succeeds
          (λ t. Good now t × (opened t ≡ after_transfer fd kept (opened s)))
          (on_readable fd events now s)
  unfolding on_readable append_task
  on_readable-Good events h true got =
      subst (λ r. Succeeds (λ t. Good now t × (opened t ≡ opened s)) (after_read fd now s r))
        (sym got)
        (kept-Good now (append_task fd (record s { https = update s.https fd h })) good fd m)
  on_readable-Good events h false got =
      subst
        (λ r.
          Succeeds (λ t. Good now t × (opened t ≡ remove fd (opened s))) (after_read fd now s r))
        (sym got) (failed-Good now (record s { https = update s.https fd h }) good fd m)

  abbrev written : Writing → Server
  written r = record s { https = update s.https fd r.http; world = r.world }

  module _ (events : List Written) (r : Writing)
      (got : write events (s.https fd) s.world ≡ ok r) where
    same_open : SameOpen r.world s.world
    same_open =
        subst (WhereOk (λ v. SameOpen v.world s.world)) got
          (write-SameOpen events (s.https fd) s.world)

    Good-written : Good now (written r)
    Good-written =
        Good-with_world now (record s { https = update s.https fd r.http }) r.world good same_open

    still_open : Mem fd (opened (written r))
    still_open = subst (Mem fd) (sym same_open.1) m

    pub on_writable-Good :
        (kept : Bool)
        → r.progress ≡ Progress.returned kept
        → Succeeds
            (λ t. Good now t × (opened t ≡ after_transfer fd kept (opened s)))
            (on_writable fd events now s)
    unfolding on_writable
    on_writable-Good true ended =
        rw (got, ended)
          (Succeeds-weaken (kept-Good now (written r) Good-written fd still_open)
            (λ t g. (g.0, g.1 ∙ same_open.1)))
    on_writable-Good false ended =
        rw (got, ended, has_timer now s good fd m)
          (Succeeds-weaken (closed-Good now (written r) Good-written fd still_open)
            (λ t g. (g.0, g.1 ∙ ap (remove fd) same_open.1)))
