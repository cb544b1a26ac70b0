-- ===== src/EventLoopThread/Tests.antt =====
-- net/EventLoopThread.cpp: a loop that is handed over, and one that ends too early.
use cannet.Common.{◌≡◌, refl, false, none, some}
use cannet.EventLoopThread.{
  EventLoopThread, asleep, testing, returned, looping, ended, create, publish, test, Reach, here,
  next, starts, tests, publishes, ends, returns,
}
use cannet.EventLoopThread.Handing.{Served, IsWaiting, start_loop-Served, ended_first_hangs}

abbrev serving : EventLoopThread
serving = record { loop = some 5; exiting = false; starter = returned (some 5); runner = looping }

serving-Reach : Reach 5 create serving
unfolding create publish test
serving-Reach =
    next (next (next (next (next here (starts refl)) (tests refl)) (publishes refl)) (tests refl))
      (returns refl)

start_loop-Served_example : (serving.loop ≡ some 5) × Served 5 serving.starter
start_loop-Served_example = start_loop-Served 5 serving serving-Reach refl

abbrev over : EventLoopThread
over = record { loop = none; exiting = false; starter = testing; runner = ended }

over-Reach : Reach 5 create over
unfolding create publish test
over-Reach = next (next (next here (starts refl)) (publishes refl)) (ends refl)

over-tested : Reach 5 over (record over { starter = asleep })
unfolding test
over-tested = next here (tests refl)

ended_first_hangs_example :
    IsWaiting (record over { starter = asleep }).starter
    × ((record over { starter = asleep }).loop ≡ none)
ended_first_hangs_example =
    ended_first_hangs 5 over (record over { starter = asleep }) over-Reach refl tt over-tested
