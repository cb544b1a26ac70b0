-- ===== src/EventLoop/Timers.antt =====
-- The timers of net/EventLoop.cpp: runAt, runEvery and runAfter, on the thread of the loop. The result has
-- the sequence number that the handle stands for; `asserts` says whether the build checks asserts.
pub mod Firing
mod Tests
use cannet.Common.{ℕ, ◌+◌, Bool, Option}
use cannet.TimerManager.{TimerManager, add_timer}

unfoldable pub run_at : Bool → ℕ → TimerManager → Option (ℕ × TimerManager)
unfolding add_timer
run_at asserts time m = add_timer asserts time 0 m

-- `now` is what the clock says.
unfoldable pub run_every : Bool → ℕ → ℕ → TimerManager → Option (ℕ × TimerManager)
unfolding add_timer
run_every asserts interval now m = add_timer asserts (now + interval) interval m

unfoldable pub run_after : Bool → ℕ → ℕ → TimerManager → Option (ℕ × TimerManager)
unfolding add_timer
run_after asserts delay now m = add_timer asserts (now + delay) 0 m
