-- ===== src/ThreadPool/Once.antt =====
-- What happens to the tasks of a ThreadPool: each is taken in its turn and run once.
use mathlib.Core.Bool.{or-true}
use cannet.Common.{
  ℕ, ◌≡◌, refl, subst, Option, some, List, [], ◌∷◌, ◌==◌, if◌then◌else◌, Bool-cases, inl, inr,
  arith, total-eq-zero, Returns, ltb,
}
use cannet.ThreadSafeQueue.{ThreadSafeQueue, is_empty, is_at, pop_head, push}
use cannet.ThreadSafeQueue
use cannet.ThreadPool.{
  create, add_tasks, start, Phase, starting, ThreadPool, add_task, wait_and_pop, Reach, here, next,
}
use cannet.ThreadPool.Fairness.{Fair, Step-Fair, add_task-Fair, held, wait_and_pop-added}

-- A pool whose threads are not made yet.
record Idle (p : ThreadPool) : Type 0 where
  fair : Fair 0 p
  no_threads : p.num_threads ≡ 0
  nothing_ran : p.ran ≡ []
  nothing_taken : p.taken ≡ []

create-Idle : Idle create
unfolding create ThreadSafeQueue.create
create-Idle = record {
  fair = record {
    rest = [];
    in_queue = (0, refl, refl, omega arith);
    order = refl;
    beyond = λ i h. refl;
    balanced = λ t. refl;
  };
  no_threads = refl;
  nothing_ran = refl;
  nothing_taken = refl;
}

add_tasks-Idle : (tasks : List (Option ℕ)) (p : ThreadPool) → Idle p → Idle (add_tasks tasks p)
unfolding add_tasks add_task
add_tasks-Idle [] p h = h
add_tasks-Idle (task ∷ rest) p h = add_tasks-Idle rest (add_task task p) (record {
  fair = add_task-Fair 0 task p h.fair;
  no_threads = h.no_threads;
  nothing_ran = h.nothing_ran;
  nothing_taken = h.nothing_taken;
})

start-Fair : (n : ℕ) (p : ThreadPool) → Idle p → Returns (start n p) (Fair n)
unfolding start
start-Fair n p h =
    let worker : ℕ → Phase = λ i. if ltb i n then starting else p.worker i in
    let free : (t i : ℕ) → held t (worker i) ≡ 0 = λ t i. elim (Bool-cases (ltb i n)) [
      | inl e ↦ rw e refl
      | inr e ↦ rw (e, h.fair.beyond i (omega arith)) refl
    ] in
    rw (h.no_threads, or-true (n == 0))
      (record {
        rest = h.fair.rest;
        in_queue = h.fair.in_queue;
        order = h.fair.order;
        beyond = λ i k. ground (arith, h.fair.beyond i (omega arith));
        balanced = λ t.
            rw (h.nothing_ran, h.nothing_taken)
              (omega (arith, total-eq-zero (held t) n worker (free t)));
      })

-- From a start with `n` threads, with tasks added before: in every state that the pool can reach, the
-- tasks taken and then those in the queue are those that were added, in order; each task was run, and
-- is held by threads, exactly as often as it was taken; and no thread follows a null pointer in
-- waitAndPop.
pub Reach-Fair :
    (n : ℕ) (tasks : List (Option ℕ)) (p q : ThreadPool)
    → start n (add_tasks tasks create) ≡ some p
    → Reach p q
    → Fair n q × ((i : ℕ) → Returns (wait_and_pop i q) (λ r. r.added ≡ q.added))
Reach-Fair n tasks p q s r =
    let f = run-Fair r (
      subst (λ m. Returns m (Fair n)) s
        (start-Fair n _ (add_tasks-Idle tasks create create-Idle))) in
    (f, λ i. wait_and_pop-added i q f.rest f.in_queue)
  where
    run-Fair : {q : ThreadPool} → Reach p q → Fair n p → Fair n q
    run-Fair here f = f
    run-Fair (next r st) f = Step-Fair n (run-Fair r f) st
