-- ===== src/ThreadPool/Tests.antt =====
-- base/ThreadPool.cpp on two threads and two tasks, the second of them empty.
use cannet.Common.{
  ℕ, ◌≡◌, ◌≢◌, refl, inl, true, false, none, some, List, [], ◌∷◌, Option, ltb, if◌then◌else◌,
  set_at, Returns,
}
use cannet.ThreadPool.{
  ThreadPool, create, add_tasks, start, stop, destroy, check, wait_and_pop, absent, starting,
  checking, testing, ended, Reach, here, next, begins, checks,
}
use cannet.ThreadPool.Fairness.{Fair}
use cannet.ThreadPool.Once.{Reach-Fair}
use cannet.ThreadPool.Stopping.{IsWaiting, stop_hangs}

abbrev tasks : List (Option ℕ)
tasks = some 7 ∷ none ∷ []

abbrev started : ThreadPool
started = record (add_tasks tasks create) {
  running = true;
  num_threads = 2;
  worker = λ i. if ltb i 2 then starting else absent;
}

started_lem : start 2 (add_tasks tasks create) ≡ some started
unfolding start add_tasks create
started_lem = refl

-- The first thread comes to wait for a task.
abbrev begun : ThreadPool
begun = check 0 (record started { worker = set_at 0 checking started.worker })

begun-Reach : Reach started begun
unfolding add_tasks create
begun-Reach = next (next here (begins 0 refl)) (checks 0 refl)

begun-testing : begun.worker 0 ≡ testing
unfolding check
begun-testing = refl

wait_and_pop-begun : Returns (wait_and_pop 0 begun) (λ p. p.taken ≡ some 7 ∷ [])
unfolding wait_and_pop check add_tasks create
wait_and_pop-begun = refl

Reach-Fair_example :
    Fair 2 begun × ((i : ℕ) → Returns (wait_and_pop i begun) (λ p. p.added ≡ begun.added))
Reach-Fair_example = Reach-Fair 2 tasks started begun started_lem begun-Reach

stop_hangs_example :
    IsWaiting ((stop begun).worker 0)
    × ((stop begun).worker 0 ≢ ended)
    × ((stop begun).taken ≡ begun.taken)
stop_hangs_example = stop_hangs 0 begun (stop begun) (inl begun-testing) here

destroy-begun : (destroy begun).running ≡ false
unfolding destroy stop check add_tasks create
destroy-begun = refl
