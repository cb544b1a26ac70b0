-- ===== src/AsyncLogger/Service.antt =====
-- The thread of an asynchronous logger (base/AsyncLogger.h): `start` waits on a Latch that threadFun
-- counts down first. The starter is thread 0 of the latch.
use cannet.Common.{
  ◌≡◌, refl, Bool, true, false, Option, none, some, ◌>>=◌, pos, if◌then◌else◌, Returns,
}
use cannet.Latch.{Latch, Phase, asleep, count_down, test_again}
use cannet.Latch
use cannet.ThreadStd.{ThreadStd}
use cannet.ThreadStd

pub record Service : Type 0 where
  pub running : Bool
  pub thread : ThreadStd
  pub latch : Latch

unfoldable pub create : Service
unfolding ThreadStd.create Latch.create
create = record { running = false; thread = ThreadStd.create; latch = Latch.create (pos 1) }

-- Up to the first test of the wait.
unfoldable pub start : Bool → Service → Option Service
unfolding ThreadStd.start test_again
start throws s = do
  thread ← ThreadStd.start throws s.thread
  some (record { running = true; thread = thread; latch = test_again 0 s.latch })

-- The head of threadFun: the assert and the latch.
unfoldable pub enter : Service → Option Service
unfolding count_down
enter s = if s.running then some (record s { latch = count_down s.latch }) else none

-- With the join, which waits for the end of the thread.
unfoldable pub stop : Service → Service
unfolding ThreadStd.join
stop s = record s { running = false; thread = ThreadStd.join s.thread }

unfoldable pub destroy : Service → Service
unfolding stop
destroy s = if s.running then stop s else s

-- Where no thread can be made, `start` falls asleep on a latch that nobody counts down.
start_throws :
    Returns
      (start true create)
      (λ s. (s.thread.joinable ≡ false) × (s.latch.thread 0 ≡ asleep) × (s.latch.count ≡ pos 1))
unfolding start create ThreadStd.start ThreadStd.create Latch.create test_again Latch.test
start_throws = (refl, refl, refl)
