-- ===== src/ThreadPool.antt =====
-- base/ThreadPool.h and base/ThreadPool.cpp: threads that take tasks from a ThreadSafeQueue. A task is
-- a number, or none for an empty std::function. Each section under a mutex is one step of a thread.
pub mod Fairness
pub mod Once
pub mod Stopping
mod Tests
use cannet.Common.{
  ℕ, zero, suc, ◌+◌, ◌≡◌, Bool, true, false, not, ◌||◌, Option, none, some, List, [], ◌∷◌, ◌++◌,
  ◌==◌, ltb, if◌then◌else◌, ◌>>=◌, ◌>>◌, guard, set_at,
}
use cannet.ThreadSafeQueue.{ThreadSafeQueue, push, is_empty, pop_head, notify_all}
use cannet.ThreadSafeQueue

-- Where a thread stands in runInThread: not made yet, before the callback, at the test of `running_`, in
-- waitAndPop before its test, asleep on the condition, with a task, or at the end.
pub data Phase : Type 0 where
  absent starting checking testing asleep ended : Phase
  holding : Option ℕ → Phase

-- `added`, `taken` and `ran` record what was given to addTask, taken from the queue and run;
-- `head_locked` says that a lock of headMutex_ is never given back.
pub record ThreadPool : Type 0 where
  pub running : Bool
  pub num_threads : ℕ
  pub queue : ThreadSafeQueue (Option ℕ)
  pub head_locked : Bool
  pub worker : ℕ → Phase
  pub added : List (Option ℕ)
  pub taken : List (Option ℕ)
  pub ran : List ℕ

unfoldable pub create : ThreadPool
unfolding ThreadSafeQueue.create
create = record {
  running = false;
  num_threads = 0;
  queue = ThreadSafeQueue.create;
  head_locked = false;
  worker = λ i. absent;
  added = [];
  taken = [];
  ran = [];
}

unfoldable pub add_task : Option ℕ → ThreadPool → ThreadPool
unfolding push
add_task task p = record p { queue = push task p.queue; added = p.added ++ (task ∷ []) }

unfoldable pub add_tasks : List (Option ℕ) → ThreadPool → ThreadPool
unfolding add_task
add_tasks [] p = p
add_tasks (task ∷ rest) p = add_tasks rest (add_task task p)

-- Thread::start of the first thread asserts that it was not started before.
unfoldable pub start : ℕ → ThreadPool → Option ThreadPool
start n p = do
  guard (n == 0 || p.num_threads == 0)
  some (record p {
    running = true;
    num_threads = p.num_threads + n;
    worker = λ i. if ltb i n then starting else p.worker i;
  })

unfoldable pub wake : Phase → Phase
wake asleep = testing
wake ph = ph

-- notify_all of the queue comes back with what it leaves of headMutex_, and has woken the threads if the
-- queue is empty; or it waits for ever for a lock, and keeps those that it has.
unfoldable pub stop : ThreadPool → ThreadPool
unfolding notify_all is_empty wake
stop p = elim (notify_all p.head_locked p.queue) [
  | none ↦ record p { running = false; head_locked = true }
  | some locked ↦ record p {
    running = false;
    head_locked = locked;
    worker = λ i. if is_empty p.queue then wake (p.worker i) else p.worker i;
  }
]

unfoldable pub destroy : ThreadPool → ThreadPool
unfolding stop
destroy p = let stopped = stop p in if p.running then stopped else p

-- The test of the while loop.
unfoldable pub check : ℕ → ThreadPool → ThreadPool
check i p = record p { worker = set_at i (if p.running then testing else ended) p.worker }

-- waitAndPop from the test of its predicate on: the thread goes to sleep, or takes a task. The result
-- is none where a null pointer is followed.
unfoldable pub wait_and_pop : ℕ → ThreadPool → Option ThreadPool
unfolding is_empty pop_head
wait_and_pop i p =
    let popped = (do
      r ← pop_head p.queue
      task ← r.0
      some (record p {
        queue = r.1;
        taken = p.taken ++ (task ∷ []);
        worker = set_at i (holding task) p.worker;
      })) in
    if is_empty p.queue then some (record p { worker = set_at i asleep p.worker }) else popped

-- The task, if it is not empty, and back to the test of the loop.
unfoldable pub run_task : ℕ → Option ℕ → ThreadPool → ThreadPool
run_task i none p = record p { worker = set_at i checking p.worker }
run_task i (some t) p = record p { worker = set_at i checking p.worker; ran = p.ran ++ (t ∷ []) }

-- A thread wakes when it is notified, or for no reason.
pub data Step (p : ThreadPool) : ThreadPool → Type 0 where
  adds : (task : Option ℕ) → Step p (add_task task p)
  stops : Step p (stop p)
  begins :
      (i : ℕ) → p.worker i ≡ starting → Step p (record p { worker = set_at i checking p.worker })
  checks : (i : ℕ) → p.worker i ≡ checking → Step p (check i p)
  waits :
      (i : ℕ) (p' : ThreadPool)
      → p.worker i ≡ testing
      → p.head_locked ≡ false
      → wait_and_pop i p ≡ some p'
      → Step p p'
  wakes : (i : ℕ) → p.worker i ≡ asleep → Step p (record p { worker = set_at i testing p.worker })
  runs : (i : ℕ) (task : Option ℕ) → p.worker i ≡ holding task → Step p (run_task i task p)

pub data Reach (p : ThreadPool) : ThreadPool → Type 0 where
  here : Reach p p
  next : {q r : ThreadPool} → Reach p q → Step q r → Reach p r
