-- ===== src/Thread.antt =====
-- Thread of base/Thread.h and base/Thread.cpp: `start` waits on a Latch until the new thread has said its
-- number. The starter is thread 0 of the latch.
pub mod Starting
mod Tests
use cannet.Common.{ℕ, zero, ◌<◌, ◌≡◌, Bool, true, false, ℤ, pos}
use cannet.Latch.{Latch, outside, asleep, woken, count_down, test_again, wake_one}
use cannet.Latch

-- Where the new thread stands in runInThread: not made, before its number is written, before
-- countDown, in the function, and at the end.
pub data Runner : Type 0 where
  unborn born counting running finished : Runner

pub record Thread : Type 0 where
  pub started : Bool
  pub tid : ℕ
  pub latch : Latch
  pub runner : Runner

unfoldable pub create : Thread
unfolding Latch.create
create = record { started = false; tid = 0; latch = Latch.create (pos 1); runner = unborn }

-- Of the starter, up to `latch_.wait()` and in it, and of the new thread. A thread's number is above 0.
pub data Step (t : Thread) : Thread → Type 0 where
  starts : t.started ≡ false → Step t (record t { started = true; runner = born })
  waits :
      t.started ≡ true
      → t.latch.thread 0 ≡ outside
      → Step t (record t { latch = test_again 0 t.latch })
  retries : t.latch.thread 0 ≡ woken → Step t (record t { latch = test_again 0 t.latch })
  wakes : t.latch.thread 0 ≡ asleep → Step t (record t { latch = wake_one 0 t.latch })
  says_tid : (n : ℕ) → 0 < n → t.runner ≡ born → Step t (record t { tid = n; runner = counting })
  counts : t.runner ≡ counting → Step t (record t { latch = count_down t.latch; runner = running })
  finishes : t.runner ≡ running → Step t (record t { runner = finished })

pub data Reach : Thread → Type 0 where
  here : Reach create
  next : {t u : Thread} → Reach t → Step t u → Reach u
