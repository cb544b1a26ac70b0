-- ===== src/Latch.antt =====
-- base/Latch.h and base/Latch.cpp: threads that wait until a count is 0. Each section under the mutex
-- is one step; a thread that waits on the condition may also wake for no reason.
pub mod Passing
mod Tests
use cannet.Common.{ℕ, zero, suc, ◌+◌, ◌≡◌, Bool, true, false, ℤ, pos, negsuc, ◌==◌, if◌then◌else◌}

-- count_ > 0
abbrev pub is_positive : ℤ → Bool
is_positive (pos zero) = false
is_positive (pos (suc n)) = true
is_positive (negsuc n) = false

-- count_ - 1. The int does not run below its range: there are not that many calls.
abbrev pub pred : ℤ → ℤ
pred (pos zero) = negsuc 0
pred (pos (suc n)) = pos n
pred (negsuc n) = negsuc (suc n)

abbrev pub is_zero : ℤ → Bool
is_zero (pos zero) = true
is_zero _ = false

-- Where a thread stands with `wait`: before it, asleep on the condition, woken and about to test the
-- count again, or through.
pub data Phase : Type 0 where
  outside asleep woken passed : Phase

pub record Latch : Type 0 where
  pub count : ℤ
  pub thread : ℕ → Phase

unfoldable pub create : ℤ → Latch
create count = record { count = count; thread = λ i. outside }

-- The test of the while loop in `wait`.
unfoldable pub test : ℤ → Phase
test count = if is_positive count then asleep else passed

-- notify_all
unfoldable pub wake : Phase → Phase
wake asleep = woken
wake p = p

unfoldable pub count_down : Latch → Latch
unfolding wake
count_down l =
    let count' = pred l.count in
    record {
      count = count';
      thread = λ i. if is_zero count' then wake (l.thread i) else l.thread i;
    }

-- A thread tests the count.
unfoldable pub test_again : ℕ → Latch → Latch
unfolding test
test_again i l = record l { thread = λ j. if j == i then test l.count else l.thread j }

-- A thread wakes for no reason.
unfoldable pub wake_one : ℕ → Latch → Latch
wake_one i l = record l { thread = λ j. if j == i then woken else l.thread j }

pub data Step (l : Latch) : Latch → Type 0 where
  waits : (i : ℕ) → l.thread i ≡ outside → Step l (test_again i l)
  counts : Step l (count_down l)
  retries : (i : ℕ) → l.thread i ≡ woken → Step l (test_again i l)
  wakes : (i : ℕ) → l.thread i ≡ asleep → Step l (wake_one i l)

pub data Reach (count : ℤ) : Latch → Type 0 where
  start : Reach count (create count)
  later : {l l' : Latch} → Reach count l → Step l l' → Reach count l'
