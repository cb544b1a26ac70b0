-- ===== src/Latch/Tests.antt =====
-- A latch of one: a thread sleeps, the count goes to 0, and the thread passes.
use cannet.Common.{◌≡◌, refl, pos}
use cannet.Latch.{
  Latch, passed, create, count_down, test_again, waits, counts, retries, Reach, start, later,
}
use cannet.Latch.Passing.{Fits, Reach-Fits}

abbrev opened : Latch
opened = test_again 3 (count_down (test_again 3 (create (pos 1))))

opened-passed : (opened.thread 3 ≡ passed) × (opened.count ≡ pos 0)
unfolding create count_down test_again
opened-passed = (refl, refl)

opened-Reach : Reach (pos 1) opened
unfolding create count_down test_again
opened-Reach = later (later (later start (waits 3 refl)) counts) (retries 3 refl)

Reach-Fits_example : Fits opened.count (opened.thread 3)
Reach-Fits_example = Reach-Fits (pos 1) opened opened-Reach 3
