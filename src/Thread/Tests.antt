-- ===== src/Thread/Tests.antt =====
-- base/Thread.cpp: one start, in which the starter comes to sleep first.
use cannet.Common.{◌<◌, ◌≡◌, refl, arith, true}
use cannet.Latch.{count_down, test_again, passed}
use cannet.Thread.{
  Thread, create, running, starts, waits, retries, says_tid, counts, Reach, here, next,
}
use cannet.Thread.Starting.{IsUnderWay, start_waits}

-- The new thread has counted down, and the starter is through.
abbrev counted : Thread
counted = record {
  started = true;
  tid = 41;
  latch = test_again 0 (count_down (test_again 0 create.latch));
  runner = running;
}

counted-Reach : Reach counted
unfolding create test_again count_down
counted-Reach =
    next
      (next
        (next (next (next here (starts refl)) (waits refl refl)) (says_tid 41 (omega arith) refl))
        (counts refl))
      (retries refl)

counted-passed : counted.latch.thread 0 ≡ passed
unfolding create test_again count_down
counted-passed = refl

start_waits_example : (0 < counted.tid) × IsUnderWay counted.runner
start_waits_example = start_waits counted counted-Reach counted-passed
