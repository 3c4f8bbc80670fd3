-- ===== src/ThreadWorker/Tests.antt =====
-- A pool of two threads: two tasks are begun, one is done, and one is left when the threads quit.
use dracon.Prelude.{ℕ, refl, List, [], ◌∷◌, none, some, true, false}
use dracon.ThreadWorker.{
  Worker, looping, running, over, ThreadWorker, looping_workers, thread_worker, insert_task,
  next_of, next_task, set_worker, worker_at, worker_turn, finish_task, quit, Reachable, starts,
  inserts, turns, finishes, quits,
}
use dracon.ThreadWorker.InOrder.{IsInOrder, Reachable-IsInOrder}

abbrev tasks : List ℕ
tasks = 10 ∷ 11 ∷ 12 ∷ []

abbrev pool : List ℕ → Worker → Worker → ThreadWorker
pool pending first second = record {
  m_quit = false;
  m_pending_tasks = pending;
  m_workers = first ∷ second ∷ [];
}

abbrev quitting : Worker → ThreadWorker
quitting second = record (pool (12 ∷ []) (running 11) second) { m_quit = true }

quitting-Reachable : Reachable 2 tasks (10 ∷ 11 ∷ []) (quitting over)
unfolding worker_turn finish_task quit insert_task thread_worker looping_workers next_task next_of
    set_worker worker_at
quitting-Reachable =
    turns 1 none tasks (10 ∷ 11 ∷ []) (quitting looping) (quitting over)
      (quits tasks (10 ∷ 11 ∷ []) (pool (12 ∷ []) (running 11) looping) (
        finishes 1 tasks (10 ∷ 11 ∷ []) (pool (12 ∷ []) (running 11) (running 10))
          (pool (12 ∷ []) (running 11) looping)
          (turns 0 (some 11) tasks (10 ∷ []) (pool (11 ∷ 12 ∷ []) looping (running 10))
            (pool (12 ∷ []) (running 11) (running 10))
            (turns 1 (some 10) tasks [] (pool tasks looping looping)
              (pool (11 ∷ 12 ∷ []) looping (running 10))
              (inserts 12 (10 ∷ 11 ∷ []) [] (pool (10 ∷ 11 ∷ []) looping looping) (
                inserts 11 (10 ∷ []) [] (pool (10 ∷ []) looping looping)
                  (inserts 10 [] [] (pool [] looping looping) starts)))
              refl)
            refl)
          refl))
      refl

Reachable-IsInOrder_example : IsInOrder 2 tasks (10 ∷ 11 ∷ []) (quitting over)
Reachable-IsInOrder_example =
    Reachable-IsInOrder 2 tasks (10 ∷ 11 ∷ []) (quitting over) quitting-Reachable
