-- ===== src/Timer.antt =====
-- http/timer.h and http/timer.cpp: the timers and the min-heap of pointers to them.
-- A pointer is a number, 0 is nullptr; the timers live in a store that the heap shares with
-- whoever holds a pointer. time_t and int are numbers that do not wrap.
pub mod Order
mod Exchange
pub mod Sift
mod Rise
pub mod Insert
pub mod Remove
pub mod Adjust
pub mod Ticks
pub mod Rule
mod Tests
use wslyh.Base.{
  Bool, List, Outcome, [], false, fault, if◌then◌else◌, leb, ltb, no_fuel, null_pointer, ok,
  out_of_bounds, suc, update, zero, ℕ, ◌*◌, ◌++◌, ◌+◌, ◌-◌, ◌/◌, ◌==◌, ◌>>=◌, ◌∷◌,
}

pub record Timer : Type 0 where
  pub expire_time : ℕ
  -- callback_func is not nullptr
  pub has_callback : Bool
  -- the client data that the timer points to
  pub client_data : ℕ
  pub pos : ℕ

pub record TimerHeap : Type 0 where
  pub capacity : ℕ
  pub cur_num : ℕ
  pub slots : ℕ → ℕ
  pub timers : ℕ → Timer

-- CTimerHeap(capacity), over a store of timers
unfoldable pub new_heap : ℕ → (ℕ → Timer) → TimerHeap
new_heap n timers = record { capacity = n; cur_num = 0; slots = λ _. 0; timers = timers }

-- m_aTimers[i], to be dereferenced
unfoldable pub load : TimerHeap → ℕ → Outcome ℕ
load h i =
    if ltb i h.capacity
    then (if h.slots i == 0 then fault null_pointer else ok (h.slots i))
    else fault out_of_bounds

abbrev pub moved_to : ℕ → Timer → Timer
moved_to i t = record t { pos = i }

-- `t` written to slot `i`, and `i` to its m_iPos
abbrev pub placed : TimerHeap → ℕ → ℕ → TimerHeap
placed h i t = record h {
  slots = update h.slots i t;
  timers = update h.timers t (moved_to i (h.timers t));
}

-- m_aTimers[i] = t; m_aTimers[i]->m_iPos = i;
unfoldable pub place : TimerHeap → ℕ → ℕ → Outcome TimerHeap
place h i t = if ltb i h.capacity then ok (placed h i t) else fault out_of_bounds

abbrev pub expire : TimerHeap → ℕ → ℕ
expire h t = (h.timers t).expire_time

-- the child of `node` that HeapDown compares with; the left one exists
pub smaller_child : TimerHeap → ℕ → Outcome ℕ
smaller_child h node =
    let child = node * 2 + 1 in
    if ltb (child + 1) h.cur_num
    then (do
      right ← load h (child + 1)
      left ← load h child
      ok (if ltb (expire h right) (expire h left) then child + 1 else child))
    else ok child

-- the loop of HeapDown, with `tmp` taken out of slot `node`
pub down_loop : ℕ → TimerHeap → ℕ → ℕ → Outcome TimerHeap
down_loop zero h node tmp = fault no_fuel
down_loop (suc k) h node tmp =
    let sink : Outcome TimerHeap = do
      child ← smaller_child h node
      c ← load h child
      let onward = place h node c >>= λ h'. down_loop k h' child tmp
      if ltb (expire h c) (expire h tmp) then onward else place h node tmp
    in if ltb (node * 2 + 1) h.cur_num then sink else place h node tmp

pub heap_down : TimerHeap → ℕ → Outcome TimerHeap
heap_down h node = do tmp ← load h node; down_loop (h.cur_num + 1) h node tmp

unfoldable pub resize : TimerHeap → TimerHeap
resize h = record h {
  capacity = h.capacity * 2;
  slots = λ i. if ltb i h.cur_num then h.slots i else 0;
}

-- the loop of AddTimer, with slot `node` free for `t`
unfoldable pub up_loop : ℕ → TimerHeap → ℕ → ℕ → Outcome TimerHeap
up_loop zero h node t = fault no_fuel
up_loop (suc k) h node t =
    let parent = (node - 1) / 2 in
    let rise : Outcome TimerHeap = do
      p ← load h parent
      let onward = place h node p >>= λ h'. up_loop k h' parent t
      if ltb (expire h t) (expire h p) then onward else place h node t
    in if ltb 0 node then rise else place h node t

unfoldable pub add_timer : TimerHeap → ℕ → Outcome TimerHeap
add_timer h t =
    if t == 0
    then ok h
    else (let h' = if leb h.capacity h.cur_num then resize h else h in
        up_loop (h'.cur_num + 1) (record h' { cur_num = h'.cur_num + 1 }) h'.cur_num t)

pub adjust : TimerHeap → ℕ → Outcome TimerHeap
adjust h t = if t == 0 then fault null_pointer else heap_down h (h.timers t).pos

pub del_timer : TimerHeap → ℕ → TimerHeap
del_timer h t =
    if t == 0
    then h
    else record h { timers = update h.timers t (record (h.timers t) { has_callback = false }) }

-- m_aTimers[i], as it stands
pub peek : TimerHeap → ℕ → Outcome ℕ
peek h i = if ltb i h.capacity then ok (h.slots i) else fault out_of_bounds

pub pop_timer : TimerHeap → Outcome TimerHeap
pop_timer h = if h.cur_num == 0 then ok h else do
  top ← peek h 0
  let last = h.cur_num - 1
  t ← peek h last
  let shrunk = record h { cur_num = last; slots = update h.slots 0 t }
  if top == 0 then ok h else heap_down shrunk 0

-- the loop of Tick at time `now`; the second part lists the client data that callbacks were
-- called with, in order
pub tick_loop : ℕ → ℕ → TimerHeap → List ℕ → Outcome (TimerHeap × List ℕ)
tick_loop zero now h called = fault no_fuel
tick_loop (suc k) now h called =
    let round : Outcome (TimerHeap × List ℕ) = do
      top ← peek h 0
      let client = (h.timers top).client_data
      let called' = if (h.timers top).has_callback then called ++ client ∷ [] else called
      let onward = pop_timer h >>= λ h'. tick_loop k now h' called'
      if top == 0 then ok (h, called) else if ltb now (expire h top) then ok (h, called) else onward
    in if h.cur_num == 0 then ok (h, called) else round

pub tick : ℕ → TimerHeap → Outcome (TimerHeap × List ℕ)
tick now h = do _ ← peek h 0; tick_loop (h.cur_num + 1) now h []

-- 0 is nullptr
pub get_top : TimerHeap → Outcome ℕ
get_top h = if h.cur_num == 0 then ok 0 else peek h 0
