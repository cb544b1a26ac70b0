-- ===== src/ThreadSafeQueue/Tests.antt =====
-- The linked queue of ThreadSafeQueue on concrete calls.
use cannet.Common.{ℕ, ◌⊎◌, ◌≡◌, refl, none, some, List, [], ◌∷◌, Returns, arith}
use cannet.ThreadSafeQueue.{create, push}
use cannet.ThreadSafeQueue.Waiting.{
  Waiting, Step, Reach, about_to_wait, sleeping, ByPush, BySpurious, lost_wakeup,
}
use cannet.ThreadSafeQueue.Fifo.{Holds, Op, pushes, pops, run, run_refines_fifo}

abbrev ops : List (Op ℕ)
ops = pops (1 ∷ []) ∷ pushes 2 ∷ pops [] ∷ pops (3 ∷ []) ∷ pops [] ∷ pops [] ∷ []

create-Holds : Holds {A = ℕ} create []
unfolding create
create-Holds = (0, refl, refl, omega arith)

run_refines_fifo_example :
    Returns
      (run ops create)
      (λ r. (r.0 ≡ none ∷ some 1 ∷ some 2 ∷ some 3 ∷ none ∷ []) × Holds r.1 [])
run_refines_fifo_example = run_refines_fifo ops create [] create-Holds

lost_wakeup_example :
    Reach (about_to_wait create) (sleeping (push 4 create))
    × Holds {A = ℕ} (push 4 create) (4 ∷ [])
    × ((t : Waiting)
        → Step (sleeping (push 4 create)) t
        → ByPush (sleeping (push 4 create)) t ⊎ BySpurious (sleeping (push 4 create)) t)
lost_wakeup_example = lost_wakeup create 4 create-Holds
