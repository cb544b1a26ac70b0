-- ===== src/TimerManager/Tests.antt =====
-- net/TimerManager.cpp on three timers: one that is due, one that repeats and is due, one that is not.
use cannet.Common.{ℕ, ◌+◌, ◌≡◌, refl, true, false, some, List, [], ◌∷◌, arith, ◌==◌, if◌then◌else◌}
use cannet.TimerManager.{Timer, TimerManager, handle_read, cancels, adds, create, Action}
use cannet.TimerManager.Order.{count}
use cannet.TimerManager.Reachable.{calls, expires, IsServing, run, run-IsServing, create-IsServing}
use cannet.TimerManager.Firing.{quiet, handle_read-count}

abbrev once : ℕ → Timer
once expiration = record {
  expiration = expiration;
  interval = 0;
  repeat = false;
  is_deleted = false;
}

abbrev timers : ℕ → Timer
timers i =
    if i == 0
    then once 30
    else if i == 1
    then record { expiration = 10; interval = 5; repeat = true; is_deleted = false }
    else once 20

abbrev manager : TimerManager
manager = record {
  timer = timers;
  timer_num = 3;
  queue = 1 ∷ 2 ∷ 0 ∷ [];
  asked = some 10;
  fired = [];
}

handle_read-manager :
    ((handle_read quiet 22 manager).fired ≡ 1 ∷ 2 ∷ [])
    × ((handle_read quiet 22 manager).queue ≡ 1 ∷ 0 ∷ [])
unfolding handle_read
handle_read-manager = (refl, refl)

-- A callback that cancels a timer of the same round keeps it from running.
abbrev cancelling : ℕ → List Action
cancelling i = cancels 2 ∷ []

handle_read-cancelling : (handle_read cancelling 22 manager).fired ≡ 1 ∷ []
unfolding handle_read
handle_read-cancelling = refl

handle_read-count_example :
    (count 1 (handle_read quiet 22 manager).fired ≡ 0 + 1)
    × (count 1 (handle_read quiet 22 manager).queue ≡ 1)
handle_read-count_example = handle_read-count 22 1 manager (omega arith) refl

run-IsServing_example :
    IsServing (run (calls (adds 10 5 ∷ adds 7 0 ∷ []) ∷ expires cancelling 12 ∷ []) (create timers))
run-IsServing_example =
    run-IsServing (calls (adds 10 5 ∷ adds 7 0 ∷ []) ∷ expires cancelling 12 ∷ []) (create timers)
      (create-IsServing timers)
