-- ===== src/EventLoopThread.antt =====
-- net/EventLoopThread.h and net/EventLoopThread.cpp: a thread that makes an EventLoop on its stack and
-- hands its address to the thread in startLoop. The loop is known by a number. Each section under the
-- mutex is one step; the read of `loop_` in `return loop_` stands outside of it.
pub mod Handing
mod Tests
use cannet.Common.{ℕ, ◌≡◌, Bool, true, false, Option, none, some}

-- The thread in startLoop: before it, before the test of the condition, asleep on it, past it, and
-- back with what it read.
pub data Starter : Type 0 where
  before testing asleep reading : Starter
  returned : Option ℕ → Starter

-- The new thread: not made, before `loop_ = &loop`, in the loop, and at the end of threadFunc.
pub data Runner : Type 0 where
  unborn initialising looping ended : Runner

pub record EventLoopThread : Type 0 where
  pub loop : Option ℕ
  pub exiting : Bool
  pub starter : Starter
  pub runner : Runner

unfoldable pub create : EventLoopThread
create = record { loop = none; exiting = false; starter = before; runner = unborn }

-- The destructor, with the loop that it asks to quit.
unfoldable pub destroy : EventLoopThread → Option ℕ × EventLoopThread
destroy t = (t.loop, record t { exiting = true })

-- The test of the condition: loop_ != nullptr.
unfoldable pub test : Option ℕ → Starter
test none = asleep
test (some loop) = reading

-- notify_one, for the one thread that can wait.
unfoldable pub notify : Starter → Starter
notify asleep = testing
notify s = s

unfoldable pub publish : ℕ → EventLoopThread → EventLoopThread
unfolding notify
publish id t = record t { loop = some id; runner = looping; starter = notify t.starter }

-- `id` is the loop of the new thread. A thread that sleeps may wake for no reason.
pub data Step (id : ℕ) (t : EventLoopThread) : EventLoopThread → Type 0 where
  starts : t.starter ≡ before → Step id t (record t { starter = testing; runner = initialising })
  tests : t.starter ≡ testing → Step id t (record t { starter = test t.loop })
  wakes : t.starter ≡ asleep → Step id t (record t { starter = testing })
  publishes : t.runner ≡ initialising → Step id t (publish id t)
  ends : t.runner ≡ looping → Step id t (record t { loop = none; runner = ended })
  returns : t.starter ≡ reading → Step id t (record t { starter = returned t.loop })

pub data Reach (id : ℕ) (t : EventLoopThread) : EventLoopThread → Type 0 where
  here : Reach id t t
  next : {u v : EventLoopThread} → Reach id t u → Step id u v → Reach id t v
