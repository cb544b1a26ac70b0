-- ===== src/EventLoop.antt =====
-- net/EventLoop.h and net/EventLoop.cpp: the functors that are left to the loop, and the event
-- descriptor that wakes it. A functor is a number, `body` says which calls run while it does: its own,
-- on the thread of the loop, and steps of other threads: queueInLoop and quit of those are two steps, since
-- the event descriptor is written behind the critical section.
pub mod Rounds
pub mod Timers
mod Tests
use cannet.Common.{
  ℕ, zero, suc, ◌+◌, Bool, true, false, not, ◌||◌, Option, none, some, List, [], ◌∷◌, ◌++◌,
  if◌then◌else◌, ◌>>=◌, ◌>>◌, guard,
}

-- `wakeups` is the counter of the event descriptor, `to_wake` counts the
-- other threads that still have to write to it, `ran` lists the functors that were run.
pub record EventLoop : Type 0 where
  pub looping : Bool
  pub quit : Bool
  pub event_handling : Bool
  pub calling_functors : Bool
  pub functors : List ℕ
  pub wakeups : ℕ
  pub to_wake : ℕ
  pub ran : List ℕ

unfoldable pub create : EventLoop
create = record {
  looping = false;
  quit = false;
  event_handling = false;
  calling_functors = false;
  functors = [];
  wakeups = 0;
  to_wake = 0;
  ran = [];
}

unfoldable pub wakeup : EventLoop → EventLoop
wakeup l = record l { wakeups = l.wakeups + 1 }

-- The read of the event descriptor takes its whole count.
unfoldable pub handle_read : EventLoop → EventLoop
handle_read l = record l { wakeups = 0 }

unfoldable pub request_quit : Bool → EventLoop → EventLoop
unfolding wakeup
request_quit in_thread l = let l' = record l { quit = true } in if in_thread then l' else wakeup l'

-- The critical section of queueInLoop.
unfoldable pub push_functor : ℕ → EventLoop → EventLoop
push_functor cb l = record l { functors = l.functors ++ (cb ∷ []) }

-- The whole of queueInLoop.
unfoldable pub queue_in_loop : Bool → ℕ → EventLoop → EventLoop
unfolding wakeup push_functor
queue_in_loop in_thread cb l =
    let l' = push_functor cb l in if not in_thread || l'.calling_functors then wakeup l' else l'

-- On the thread of the loop `call` runs the functor at once.
unfoldable pub run_in_loop : (ℕ → EventLoop → EventLoop) → Bool → ℕ → EventLoop → EventLoop
unfolding queue_in_loop
run_in_loop call in_thread cb l = if in_thread then call cb l else queue_in_loop false cb l

-- The steps of other threads: queueInLoop up to its wakeup, `quit` up to its wakeup, and a wakeup.
pub data Other : Type 0 where
  leaves : ℕ → Other
  stops writes : Other

unfoldable pub act_other : Other → EventLoop → EventLoop
unfolding push_functor wakeup
act_other (leaves cb) l = let l' = push_functor cb l in record l' { to_wake = l'.to_wake + 1 }
act_other stops l = record l { quit = true; to_wake = l.to_wake + 1 }
act_other writes l = elim l.to_wake [ zero ↦ l | suc n ↦ wakeup (record l { to_wake = n }) ]

-- A call on the thread of the loop, or a step of another thread.
pub data Call : Type 0 where
  queues : ℕ → Call
  quits : Call
  others : Other → Call

unfoldable pub act : Call → EventLoop → EventLoop
unfolding queue_in_loop request_quit act_other
act (queues cb) l = queue_in_loop true cb l
act quits l = request_quit true l
act (others step) l = act_other step l

unfoldable pub act_all : List Call → EventLoop → EventLoop
unfolding act
act_all [] l = l
act_all (call ∷ rest) l = act_all rest (act call l)

-- An active channel: the wakeup channel, or another one whose callbacks make some calls.
pub data Event : Type 0 where
  wakes : Event
  calls : List Call → Event

unfoldable pub handle_event : Event → EventLoop → EventLoop
unfolding handle_read act_all
handle_event wakes l = handle_read l
handle_event (calls cs) l = act_all cs l

unfoldable pub handle_events : List Event → EventLoop → EventLoop
unfolding handle_event
handle_events [] l = l
handle_events (e ∷ rest) l = handle_events rest (handle_event e l)

run_functor : (ℕ → List Call) → ℕ → EventLoop → EventLoop
unfolding act_all
run_functor body f l = act_all (body f) (record l { ran = l.ran ++ (f ∷ []) })

unfoldable pub run_each : (ℕ → List Call) → List ℕ → EventLoop → EventLoop
unfolding run_functor
run_each body [] l = l
run_each body (f ∷ rest) l = run_each body rest (run_functor body f l)

unfoldable pub run_functors : (ℕ → List Call) → EventLoop → EventLoop
unfolding run_each
run_functors body l =
    let l' = run_each body l.functors (record l { calling_functors = true; functors = [] }) in
    record l' { calling_functors = false }

-- One turn of `loop` with the channels that `poll` found active.
unfoldable pub turn : (ℕ → List Call) → List Event → EventLoop → EventLoop
unfolding handle_events run_functors
turn body events l =
    let handled = handle_events events (record l { event_handling = true }) in
    run_functors body (record handled { event_handling = false })

-- What other threads do while the loop waits, and the channels that are active then.
pub record Poll : Type 0 where
  pub meanwhile : List Other
  pub events : List Event

unfoldable pub outside : List Other → EventLoop → EventLoop
unfolding act_other
outside [] l = l
outside (step ∷ rest) l = outside rest (act_other step l)

-- The turns of `loop` until `quit`, for the polls given.
unfoldable pub turns : (ℕ → List Call) → List Poll → EventLoop → EventLoop
unfolding outside turn
turns body [] l = l
turns body (p ∷ rest) l =
    let after = turns body rest (turn body p.events (outside p.meanwhile l)) in
    if l.quit then l else after

unfoldable pub loop : (ℕ → List Call) → List Poll → EventLoop → Option EventLoop
unfolding turns
loop body polls l = do
  guard (not l.looping)
  let l' = turns body polls (record l { looping = true; quit = false })
  some (record l' { looping = false })
