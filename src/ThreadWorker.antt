-- ===== src/ThreadWorker.antt =====
-- include/dracon/thread_worker.h: the queue of tasks, and the threads that run them, one step after
-- the other. A task is a number; it ends whether it returns or throws.
pub mod InOrder
mod Tests
use dracon.Prelude.{
  ℕ, zero, suc, ◌≡◌, Bool, true, false, List, [], ◌∷◌, ◌++◌, Option, none, some, if◌then◌else◌, max,
}

-- A thread is at the head of its loop, or it runs a task, or its loop is over.
pub data Worker : Type 0 where
  looping : Worker
  running : ℕ → Worker
  over : Worker

pub record ThreadWorker : Type 0 where
  pub m_quit : Bool
  pub m_pending_tasks : List ℕ
  pub m_workers : List Worker

unfoldable pub looping_workers : ℕ → List Worker
looping_workers zero = []
looping_workers (suc n) = looping ∷ looping_workers n

-- The constructor.
unfoldable pub thread_worker : ℕ → ThreadWorker
unfolding looping_workers
thread_worker workers = record {
  m_quit = false;
  m_pending_tasks = [];
  m_workers = looping_workers (max 1 workers);
}

unfoldable pub insert_task : ℕ → ThreadWorker → ThreadWorker
insert_task task w = record w { m_pending_tasks = w.m_pending_tasks ++ (task ∷ []) }

-- What a thread gets: it waits while there is no task, and gets none once the threads are to quit.
pub data Next : Type 0 where
  keeps_waiting : Next
  no_task : Next
  next_is : ℕ → List ℕ → Next

unfoldable pub next_of : List ℕ → Next
next_of [] = keeps_waiting
next_of (task ∷ tasks) = next_is task tasks

unfoldable pub next_task : ThreadWorker → Next
unfolding next_of
next_task w = if w.m_quit then no_task else next_of w.m_pending_tasks

unfoldable pub set_worker : ℕ → Worker → List Worker → List Worker
set_worker i x [] = []
set_worker zero x (y ∷ ys) = x ∷ ys
set_worker (suc i) x (y ∷ ys) = y ∷ set_worker i x ys

unfoldable pub worker_at : ℕ → List Worker → Worker
worker_at i [] = over
worker_at zero (y ∷ ys) = y
worker_at (suc i) (y ∷ ys) = worker_at i ys

abbrev pub with_worker : ℕ → Worker → ThreadWorker → ThreadWorker
with_worker i x w = record w { m_workers = set_worker i x w.m_workers }

-- The `if` in the loop: the task that is begun, if there is one.
abbrev pub took : ℕ → ThreadWorker → Next → Option (Option ℕ × ThreadWorker)
took i w keeps_waiting = none
took i w no_task = some (none, w)
took i w (next_is task tasks) =
    some (some task, record (with_worker i (running task) w) { m_pending_tasks = tasks })

-- A round of the loop of a thread up to the call of a task.
abbrev pub turn_of : ℕ → ThreadWorker → Worker → Option (Option ℕ × ThreadWorker)
turn_of i w looping = if w.m_quit then some (none, with_worker i over w) else took i w (next_task w)
turn_of i w (running task) = none
turn_of i w over = none

unfoldable pub worker_turn : ℕ → ThreadWorker → Option (Option ℕ × ThreadWorker)
unfolding worker_at set_worker next_task
worker_turn i w = turn_of i w (worker_at i w.m_workers)

abbrev pub finish_of : ℕ → ThreadWorker → Worker → Option ThreadWorker
finish_of i w looping = none
finish_of i w (running task) = some (with_worker i looping w)
finish_of i w over = none

-- The end of the task that a thread runs.
unfoldable pub finish_task : ℕ → ThreadWorker → Option ThreadWorker
unfolding worker_at set_worker
finish_task i w = finish_of i w (worker_at i w.m_workers)

-- The destructor, before it waits for the threads.
unfoldable pub quit : ThreadWorker → ThreadWorker
quit w = record w { m_quit = true }

abbrev pub begun_tasks : Option ℕ → List ℕ
begun_tasks none = []
begun_tasks (some task) = task ∷ []

-- What can happen to a pool of so many threads, with the tasks that were inserted and the ones that
-- were begun, in order.
pub data Reachable (workers : ℕ) : List ℕ → List ℕ → ThreadWorker → Type 0 where
  starts : Reachable workers [] [] (thread_worker workers)
  inserts :
      (task : ℕ) (inserted begun : List ℕ) (w : ThreadWorker)
      → Reachable workers inserted begun w
      → Reachable workers (inserted ++ (task ∷ [])) begun (insert_task task w)
  turns :
      (i : ℕ) (task : Option ℕ) (inserted begun : List ℕ) (w w' : ThreadWorker)
      → Reachable workers inserted begun w
      → worker_turn i w ≡ some (task, w')
      → Reachable workers inserted (begun ++ begun_tasks task) w'
  finishes :
      (i : ℕ) (inserted begun : List ℕ) (w w' : ThreadWorker)
      → Reachable workers inserted begun w
      → finish_task i w ≡ some w'
      → Reachable workers inserted begun w'
  quits :
      (inserted begun : List ℕ) (w : ThreadWorker)
      → Reachable workers inserted begun w
      → Reachable workers inserted begun (quit w)
