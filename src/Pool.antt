-- ===== src/Pool.antt =====
-- threadpool/threadpool.h, CThreadPool: the queue of tasks, Append and Work as steps of threads in any
-- order, and the constructor and the destructor with the array of threads.
pub mod Queue
pub mod Start
mod Tests
use wslyh.Base.{
  Bool, List, Option, Outcome, [], bad_delete, false, fault, if◌then◌else◌, leb, length, ltb, none,
  ok, some, suc, true, zero, ℕ, ◌++◌, ◌+◌, ◌<◌, ◌∷◌, ◌≡◌,
}

abbrev pub task_num : ℕ
task_num = 100

abbrev pub max_thread_num : ℕ
max_thread_num = 16

-- m_aThreads: not assigned, `new pthread_t[n]`, or that array after delete[]
pub data Threads : Type 0 where
  unset : Threads
  allocated : ℕ → Threads
  deleted : Threads

-- `create i` and `detach i` tell whether pthread_create and pthread_detach succeed for the thread `i`.
module _ (create detach : ℕ → Bool) where
  -- The loop of the constructor with `rounds` threads to go, and how many run in the end.
  unfoldable pub start_loop : ℕ → ℕ → ℕ → Threads × ℕ
  start_loop zero thread_num i = (allocated thread_num, i)
  start_loop (suc rounds) thread_num i =
      let rest = start_loop rounds thread_num (i + 1) in
      if create i then if detach i then rest else (deleted, i + 1) else (deleted, i)

  unfoldable pub start : ℕ → Threads × ℕ
  unfolding start_loop
  start thread_num =
      if ltb max_thread_num thread_num then (unset, 0) else start_loop thread_num thread_num 0

-- delete[] m_aThreads
unfoldable pub destroy : Threads → Outcome {0} Unit
destroy unset = fault bad_delete
destroy (allocated n) = ok tt
destroy deleted = fault bad_delete

-- m_qTasks, a task by its number; the task whose HttpParse a worker runs, which holds m_cLock
-- meanwhile; and the tasks of the calls of Append between the test of the size and Lock. `pushed` and
-- `parsed` are the tasks that went into the queue and those whose HttpParse has ended.
pub record Pool : Type 0 where
  pub tasks : List ℕ
  pub running : Option ℕ
  pub checked : List ℕ
  pub pushed : List ℕ
  pub parsed : List ℕ

-- the test of Append
unfoldable pub too_much : List ℕ → Bool
too_much tasks = leb task_num (length tasks)

-- `callers` is the number of threads that may be in Append at once; each is there with one task.
module _ (callers : ℕ) where
  pub data Step (s : Pool) : Pool → Type 0 where
    reject : (task : ℕ) → length s.checked < callers → too_much s.tasks ≡ true → Step s s
    check :
        (task : ℕ)
        → length s.checked < callers
        → too_much s.tasks ≡ false
        → Step s (record s { checked = task ∷ s.checked })
    push :
        (before after : List ℕ) (task : ℕ)
        → s.running ≡ none
        → s.checked ≡ before ++ task ∷ after
        → Step s (record s {
          checked = before ++ after;
          tasks = s.tasks ++ task ∷ [];
          pushed = s.pushed ++ task ∷ [];
        })
    -- Work from Lock, or from the end of the wait, to the call of HttpParse
    take :
        (task : ℕ) (rest : List ℕ)
        → s.running ≡ none
        → s.tasks ≡ task ∷ rest
        → Step s (record s { tasks = rest; running = some task })
    -- the end of HttpParse, and Unlock
    finish :
        (task : ℕ)
        → s.running ≡ some task
        → Step s (record s { running = none; parsed = s.parsed ++ task ∷ [] })

  pub data Reach (s : Pool) : Pool → Type 0 where
    here : Reach s s
    next : {t u : Pool} → Reach s t → Step t u → Reach s u

-- a pool with nothing to do
abbrev pub idle_pool : Pool
idle_pool = record { tasks = []; running = none; checked = []; pushed = []; parsed = [] }
