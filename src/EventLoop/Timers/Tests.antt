-- ===== src/EventLoop/Timers/Tests.antt =====
-- runAt, runAfter and runEvery of net/EventLoop.cpp on a new manager, at time 3 and then at 9.
use cannet.Common.{ℕ, false}
use cannet.TimerManager.{Timer}

abbrev timers : ℕ → Timer
timers i = record { expiration = 0; interval = 0; repeat = false; is_deleted = false }
