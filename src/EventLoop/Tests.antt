-- ===== src/EventLoop/Tests.antt =====
-- The loop of EventLoop on concrete calls.
use cannet.Common.{ℕ, ◌+◌, inl, inr, Returns, List, [], ◌∷◌, ◌≡◌, refl, arith}
use cannet.EventLoop.{
  EventLoop, create, Call, queues, others, leaves, writes, Event, wakes, calls, Poll, turn, loop,
  outside,
}
use cannet.EventLoop.Rounds.{IsAwake, turn_lem, loop-IsAwake}

abbrev body : ℕ → List Call
body f = queues (f + 10) ∷ []

-- A functor that is queued by a functor waits for the next turn, with a wakeup.
turn-create :
    let l = turn body (calls (queues 1 ∷ others (leaves 2) ∷ []) ∷ []) create in
    (l.ran ≡ 1 ∷ 2 ∷ []) × (l.functors ≡ 11 ∷ 12 ∷ []) × (l.wakeups ≡ 2) × (l.to_wake ≡ 1)
unfolding turn create
turn-create = (refl, refl, refl, refl)

abbrev events : List Event
events = calls (queues 1 ∷ []) ∷ wakes ∷ calls (others (leaves 2) ∷ []) ∷ []

abbrev waiting : EventLoop
waiting = record create { functors = 7 ∷ []; wakeups = 1 }

turn_lem_example :
    ((turn body events waiting).ran ≡ 7 ∷ 1 ∷ 2 ∷ [])
    × ((turn body events waiting).functors ≡ 17 ∷ 11 ∷ 12 ∷ [])
unfolding create
turn_lem_example = turn_lem body events waiting

abbrev polls : List Poll
polls = record { meanwhile = leaves 3 ∷ writes ∷ []; events = wakes ∷ [] } ∷ []

loop-IsAwake_example :
    Returns (loop body polls waiting) (λ l. IsAwake l × IsAwake (outside (leaves 4 ∷ []) l))
unfolding create
loop-IsAwake_example =
    loop-IsAwake body polls (leaves 4 ∷ []) waiting refl (inr (inl (omega arith)))
