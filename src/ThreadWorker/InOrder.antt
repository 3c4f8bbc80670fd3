-- ===== src/ThreadWorker/InOrder.antt =====
-- The order in which tasks are begun.
use dracon.Prelude.{
  ℕ, zero, suc, ◌≡◌, ◌∙◌, refl, sym, ap, Bool, true, false, List, [], ◌∷◌, ◌++◌, Option, none, some,
  if◌then◌else◌, max, length, append-nil, append_assoc, subst,
}
use dracon.ThreadWorker.{
  Worker, looping, running, over, ThreadWorker, looping_workers, thread_worker, insert_task,
  no_task, next_of, next_task, set_worker, worker_at, with_worker, took, turn_of, worker_turn,
  finish_of, finish_task, quit, begun_tasks, Reachable, starts, inserts, turns, finishes, quits,
}

-- The tasks that were inserted are the ones that were begun and then the ones that wait, and no
-- thread is lost.
pub record IsInOrder (workers : ℕ) (inserted begun : List ℕ) (w : ThreadWorker) : Type 0 where
  pub in_order : inserted ≡ begun ++ w.m_pending_tasks
  pub all_there : length w.m_workers ≡ max 1 workers

looping_workers-length : (n : ℕ) → length (looping_workers n) ≡ n
unfolding looping_workers
looping_workers-length zero = refl
looping_workers-length (suc n) = ap suc (looping_workers-length n)

set_worker-length : (i : ℕ) (x : Worker) (ws : List Worker) → length (set_worker i x ws) ≡ length ws
unfolding set_worker
set_worker-length i x [] = refl
set_worker-length zero x (y ∷ ys) = refl
set_worker-length (suc i) x (y ∷ ys) = ap suc (set_worker-length i x ys)

module _ (workers : ℕ) (inserted begun : List ℕ) (i : ℕ) (w : ThreadWorker)
    (h : IsInOrder workers inserted begun w) where
  with_worker-IsInOrder : (x : Worker) → IsInOrder workers inserted begun (with_worker i x w)
  with_worker-IsInOrder x = record {
    in_order = h.in_order;
    all_there = set_worker-length i x w.m_workers ∙ h.all_there;
  }

  -- What a turn leaves.
  abbrev TurnOk : Option (Option ℕ × ThreadWorker) → Type 0
  TurnOk none = Unit
  TurnOk (some (task, w')) = IsInOrder workers inserted (begun ++ begun_tasks task) w'

  none_begun : (w' : ThreadWorker) → IsInOrder workers inserted begun w' → TurnOk (some (none, w'))
  none_begun w' g = rw (append-nil begun) g

  took-TurnOk : (tasks : List ℕ) → tasks ≡ w.m_pending_tasks → TurnOk (took i w (next_of tasks))
  unfolding next_of
  took-TurnOk [] e = tt
  took-TurnOk (task ∷ tasks) e = record {
    in_order = h.in_order ∙ (rw⁻¹ e (sym (append_assoc begun (task ∷ []) tasks)));
    all_there = set_worker-length i (running task) w.m_workers ∙ h.all_there;
  }

  if_TurnOk :
      (b : Bool) (r q : Option (Option ℕ × ThreadWorker))
      → TurnOk r
      → TurnOk q
      → TurnOk (if b then r else q)
  if_TurnOk true r q h g = h
  if_TurnOk false r q h g = g

  next-TurnOk : (b : Bool) → TurnOk (took i w (if b then no_task else next_of w.m_pending_tasks))
  next-TurnOk true = none_begun w h
  next-TurnOk false = took-TurnOk w.m_pending_tasks refl

  turn_of-TurnOk : (x : Worker) → TurnOk (turn_of i w x)
  unfolding next_task
  turn_of-TurnOk looping =
      if_TurnOk w.m_quit (some (none, with_worker i over w)) (took i w (next_task w))
        (none_begun (with_worker i over w) (with_worker-IsInOrder over)) (next-TurnOk w.m_quit)
  turn_of-TurnOk (running task) = tt
  turn_of-TurnOk over = tt

  abbrev FinishOk : Option ThreadWorker → Type 0
  FinishOk none = Unit
  FinishOk (some w') = IsInOrder workers inserted begun w'

  finish_of-FinishOk : (x : Worker) → FinishOk (finish_of i w x)
  finish_of-FinishOk looping = tt
  finish_of-FinishOk (running task) = with_worker-IsInOrder looping
  finish_of-FinishOk over = tt

-- Whatever happens to a pool of threads, in whatever order its threads take their turns: the tasks
-- that were inserted are, in order, the ones that were begun and then the ones that still wait, so
-- that each is begun at most once, in the order of insertion, and none is lost; and the pool has
-- the threads that were asked for, at least one.
pub Reachable-IsInOrder :
    (workers : ℕ) (inserted begun : List ℕ) (w : ThreadWorker)
    → Reachable workers inserted begun w
    → IsInOrder workers inserted begun w
unfolding thread_worker insert_task worker_turn finish_task quit
Reachable-IsInOrder workers inserted begun w starts = record {
  in_order = refl;
  all_there = looping_workers-length (max 1 workers);
}
Reachable-IsInOrder workers inserted begun w (inserts task ins beg v r) =
    let h = Reachable-IsInOrder workers ins beg v r in
    record {
      in_order = rw h.in_order (append_assoc beg v.m_pending_tasks (task ∷ []));
      all_there = h.all_there;
    }
Reachable-IsInOrder workers inserted begun w (turns i task ins beg v v' r e) =
    let h = Reachable-IsInOrder workers ins beg v r in
    subst (TurnOk workers ins beg i v h) e
      (turn_of-TurnOk workers ins beg i v h (worker_at i v.m_workers))
Reachable-IsInOrder workers inserted begun w (finishes i ins beg v v' r e) =
    let h = Reachable-IsInOrder workers ins beg v r in
    subst (FinishOk workers ins beg i v h) e
      (finish_of-FinishOk workers ins beg i v h (worker_at i v.m_workers))
Reachable-IsInOrder workers inserted begun w (quits ins beg v r) =
    let h = Reachable-IsInOrder workers ins beg v r in
    record { in_order = h.in_order; all_there = h.all_there }
