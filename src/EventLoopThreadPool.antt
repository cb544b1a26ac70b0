-- ===== src/EventLoopThreadPool.antt =====
-- net/EventLoopThreadPool.h and net/EventLoopThreadPool.cpp: the loops that take connections in turn.
-- A loop is known by a number; what `startLoop` of each new thread answers is an argument.
pub mod RoundRobin
mod Tests
use cannet.Common.{
  ℕ, zero, suc, ◌+◌, ◌%◌, Bool, true, false, not, Option, none, some, List, [], ◌∷◌, ◌++◌,
  get_elem?, ◌==◌, ◌>>=◌, ◌>>◌, guard, add_size,
}

pub record EventLoopThreadPool : Type 0 where
  pub base_loop : ℕ
  pub started : Bool
  pub num_threads : ℕ
  pub next : ℕ
  pub loops : List ℕ

unfoldable pub create : ℕ → EventLoopThreadPool
create base_loop = record {
  base_loop = base_loop;
  started = false;
  num_threads = 0;
  next = 0;
  loops = [];
}

unfoldable pub set_thread_num : ℕ → EventLoopThreadPool → EventLoopThreadPool
set_thread_num num_threads p = record p { num_threads = num_threads }

-- The loops of threads `i` up to `num_threads`, as `startLoop` answers them.
abbrev pub start_loops : (ℕ → ℕ) → ℕ → ℕ → List ℕ
start_loops start_loop zero i = []
start_loops start_loop (suc n) i = start_loop i ∷ start_loops start_loop n (i + 1)

unfoldable pub start : (ℕ → ℕ) → EventLoopThreadPool → Option EventLoopThreadPool
start start_loop p = do
  guard (not p.started)
  some (record p { started = true; loops = p.loops ++ start_loops start_loop p.num_threads 0 })

-- A read of `loops_` out of range, and the remainder by 0, are faults.
unfoldable pub get_next_loop : EventLoopThreadPool → Option (ℕ × EventLoopThreadPool)
get_next_loop p = do
  guard p.started
  elim p.loops [
    | [] ↦ some (p.base_loop, p)
    | _ ∷ _ ↦ (do
      loop ← get_elem? p.loops p.next
      guard (not (p.num_threads == 0))
      some (loop, record p { next = add_size p.next 1 % p.num_threads }))
  ]
