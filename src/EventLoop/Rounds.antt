-- ===== src/EventLoop/Rounds.antt =====
-- What one turn of EventLoop::loop does with the functors, and why the loop never sleeps on one.
use cannet.Common.{
  ℕ, zero, suc, ◌<◌, ◌≡◌, refl, sym, ap, ◌∙◌, ◌⊎◌, inl, inr, Bool, true, false, if◌then◌else◌, List,
  [], ◌∷◌, ◌++◌, append-nil, append_assoc, Returns, arith,
}
use cannet.EventLoop.{
  EventLoop, Other, leaves, stops, writes, act_other, push_functor, Call, queues, quits, others,
  Event, wakes, calls, Poll, queue_in_loop, request_quit, wakeup, handle_read, act, act_all,
  handle_event, handle_events, run_functor, run_each, run_functors, turn, outside, turns, loop,
}

-- The functors that calls, events and the bodies of functors queue.
abbrev pub queued : Call → List ℕ
queued (queues cb) = cb ∷ []
queued quits = []
queued (others (leaves cb)) = cb ∷ []
queued (others stops) = []
queued (others writes) = []

abbrev pub queued_all : List Call → List ℕ
queued_all [] = []
queued_all (call ∷ rest) = queued call ++ queued_all rest

abbrev pub queued_on : Event → List ℕ
queued_on wakes = []
queued_on (calls cs) = queued_all cs

abbrev pub queued_in : List Event → List ℕ
queued_in [] = []
queued_in (e ∷ rest) = queued_on e ++ queued_in rest

abbrev pub queued_by : (ℕ → List Call) → List ℕ → List ℕ
queued_by body [] = []
queued_by body (f ∷ rest) = queued_all (body f) ++ queued_by body rest

-- Some functors were run, others came behind the old ones.
abbrev pub Adds : List ℕ → List ℕ → EventLoop → EventLoop → Type 0
Adds rs fs l l' =
    (l'.ran ≡ l.ran ++ rs)
    × (l'.functors ≡ l.functors ++ fs)
    × (l'.calling_functors ≡ l.calling_functors)

Adds-refl : (l : EventLoop) → Adds [] [] l l
Adds-refl l = (sym (append-nil l.ran), sym (append-nil l.functors), refl)

Adds-trans :
    (rs ss fs gs : List ℕ) (a b c : EventLoop)
    → Adds rs fs a b
    → Adds ss gs b c
    → Adds (rs ++ ss) (fs ++ gs) a c
Adds-trans rs ss fs gs a b c p q = (
  q.0 ∙ (ap (λ x. x ++ ss) p.0 ∙ append_assoc a.ran rs ss),
  q.1 ∙ (ap (λ x. x ++ gs) p.1 ∙ append_assoc a.functors fs gs),
  q.2 ∙ p.2,
)

writes-Adds : (l : EventLoop) → Adds [] [] l (act_other writes l)
unfolding act_other wakeup
writes-Adds l =
    elim l.to_wake as (λ n. Adds [] [] l (act_other writes (record l { to_wake = n }))) [
      | zero ↦ Adds-refl l
      | suc n ↦ Adds-refl l
    ]

act-Adds : (call : Call) (l : EventLoop) → Adds [] (queued call) l (act call l)
unfolding act act_other queue_in_loop push_functor request_quit wakeup
act-Adds (queues cb) l = ground (arith, append-nil l.ran)
act-Adds quits l = ground (arith, append-nil l.ran, append-nil l.functors)
act-Adds (others (leaves cb)) l = ground (arith, append-nil l.ran)
act-Adds (others stops) l = ground (arith, append-nil l.ran, append-nil l.functors)
act-Adds (others writes) l = writes-Adds l

act_all-Adds : (cs : List Call) (l : EventLoop) → Adds [] (queued_all cs) l (act_all cs l)
unfolding act_all
act_all-Adds [] l = Adds-refl l
act_all-Adds (call ∷ rest) l =
    Adds-trans [] [] (queued call) (queued_all rest) l (act call l) (act_all rest (act call l))
      (act-Adds call l) (act_all-Adds rest (act call l))

handle_event-Adds : (e : Event) (l : EventLoop) → Adds [] (queued_on e) l (handle_event e l)
unfolding handle_event handle_read
handle_event-Adds wakes l = Adds-refl l
handle_event-Adds (calls cs) l = act_all-Adds cs l

handle_events-Adds :
    (events : List Event) (l : EventLoop) → Adds [] (queued_in events) l (handle_events events l)
unfolding handle_events
handle_events-Adds [] l = Adds-refl l
handle_events-Adds (e ∷ rest) l =
    let l' = handle_event e l in
    Adds-trans [] [] (queued_on e) (queued_in rest) l l' (handle_events rest l')
      (handle_event-Adds e l) (handle_events-Adds rest l')

run_each-Adds :
    (body : ℕ → List Call) (fs : List ℕ) (l : EventLoop)
    → Adds fs (queued_by body fs) l (run_each body fs l)
unfolding run_each run_functor
run_each-Adds body [] l = Adds-refl l
run_each-Adds body (f ∷ rest) l =
    let l' = act_all (body f) (record l { ran = l.ran ++ (f ∷ []) }) in
    let a = act_all-Adds (body f) (record l { ran = l.ran ++ (f ∷ []) }) in
    Adds-trans (f ∷ []) rest (queued_all (body f)) (queued_by body rest) l l'
      (run_each body rest l') (a.0 ∙ append-nil (l.ran ++ (f ∷ [])), a.1, a.2)
      (run_each-Adds body rest l')

-- One turn runs the functors that waited, then those that its events queue, each once and in the
-- order in which they were queued; what they queue themselves waits for the next turn.
pub turn_lem :
    (body : ℕ → List Call) (events : List Event) (l : EventLoop)
    → let due = l.functors ++ queued_in events in
      ((turn body events l).ran ≡ l.ran ++ due)
      × ((turn body events l).functors ≡ queued_by body due)
unfolding turn run_functors
turn_lem body events l =
    let handled = handle_events events (record l { event_handling = true }) in
    let h = handle_events-Adds events (record l { event_handling = true }) in
    let r =
      run_each-Adds body handled.functors
        (record handled { event_handling = false; calling_functors = true; functors = [] }) in
    (
      r.0 ∙ (ap (λ x. x ++ handled.functors) (h.0 ∙ append-nil l.ran) ∙ ap (λ x. l.ran ++ x) h.1),
      r.1 ∙ ap (queued_by body) h.1,
    )

-- Where functors wait, the event descriptor is readable, so that `poll` returns, or a thread is about to
-- write to it.
abbrev pub IsAwake : EventLoop → Type 0
IsAwake l = (l.functors ≡ []) ⊎ ((0 < l.wakeups) ⊎ (0 < l.to_wake))

act_other-IsAwake : (step : Other) (l : EventLoop) → IsAwake l → IsAwake (act_other step l)
unfolding act_other push_functor wakeup
act_other-IsAwake (leaves cb) l h = inr (inr (omega arith))
act_other-IsAwake stops l h = inr (inr (omega arith))
act_other-IsAwake writes l h =
    elim l.to_wake
        as (λ n.
          (IsAwake (record l { to_wake = n })
            → IsAwake (act_other writes (record l { to_wake = n })))) [
              | zero ↦ λ g. g
              | suc n ↦ λ g. inr (inl (omega arith))
            ]
      h

act_other-calling :
    (step : Other) (l : EventLoop) → (act_other step l).calling_functors ≡ l.calling_functors
unfolding act_other act
act_other-calling (leaves cb) l = (act-Adds (others (leaves cb)) l).2
act_other-calling stops l = (act-Adds (others stops) l).2
act_other-calling writes l = (act-Adds (others writes) l).2

-- Awake while the functors are run.
abbrev IsAwakeCalling : EventLoop → Type 0
IsAwakeCalling l = (l.calling_functors ≡ true) × IsAwake l

act-IsAwakeCalling : (call : Call) (l : EventLoop) → IsAwakeCalling l → IsAwakeCalling (act call l)
unfolding act queue_in_loop push_functor request_quit wakeup
act-IsAwakeCalling (queues cb) l h = ground arith
act-IsAwakeCalling quits l h = ground arith
act-IsAwakeCalling (others step) l h =
    (act_other-calling step l ∙ h.0, act_other-IsAwake step l h.1)

act_all-IsAwakeCalling :
    (cs : List Call) (l : EventLoop) → IsAwakeCalling l → IsAwakeCalling (act_all cs l)
unfolding act_all
act_all-IsAwakeCalling [] l h = h
act_all-IsAwakeCalling (call ∷ rest) l h =
    act_all-IsAwakeCalling rest (act call l) (act-IsAwakeCalling call l h)

run_each-IsAwakeCalling :
    (body : ℕ → List Call) (fs : List ℕ) (l : EventLoop)
    → IsAwakeCalling l
    → IsAwakeCalling (run_each body fs l)
unfolding run_each run_functor
run_each-IsAwakeCalling body [] l h = h
run_each-IsAwakeCalling body (f ∷ rest) l h =
    let l' = record l { ran = l.ran ++ (f ∷ []) } in
    run_each-IsAwakeCalling body rest (act_all (body f) l') (act_all-IsAwakeCalling (body f) l' h)

-- After a turn no functor is left without a wakeup, whatever the events and the functors called.
turn-IsAwake :
    (body : ℕ → List Call) (events : List Event) (l : EventLoop) → IsAwake (turn body events l)
unfolding turn run_functors
turn-IsAwake body events l =
    let handled = handle_events events (record l { event_handling = true }) in
    let start = record handled { event_handling = false; calling_functors = true; functors = [] } in
    (run_each-IsAwakeCalling body handled.functors start (refl, inl refl)).1

outside-IsAwake :
    (meanwhile : List Other) (l : EventLoop) → IsAwake l → IsAwake (outside meanwhile l)
unfolding outside
outside-IsAwake [] l h = h
outside-IsAwake (step ∷ rest) l h =
    outside-IsAwake rest (act_other step l) (act_other-IsAwake step l h)

if-IsAwake : (b : Bool) (l l' : EventLoop) → IsAwake l → IsAwake l' → IsAwake (if b then l else l')
if-IsAwake true l l' h h' = h
if-IsAwake false l l' h h' = h'

turns-IsAwake :
    (body : ℕ → List Call) (polls : List Poll) (l : EventLoop)
    → IsAwake l
    → IsAwake (turns body polls l)
unfolding turns
turns-IsAwake body [] l h = h
turns-IsAwake body (p ∷ rest) l h =
    let l' = turn body p.events (outside p.meanwhile l) in
    let after = turns-IsAwake body rest l' (turn-IsAwake body p.events (outside p.meanwhile l)) in
    if-IsAwake l.quit l (turns body rest l') h after

-- A loop that starts awake stays so: after any number of turns, and whatever steps other threads make
-- while it waits then, functors wait in `poll` only where the event descriptor is readable, or where a
-- thread is between its critical section and its write to that descriptor, which then wakes the loop.
pub loop-IsAwake :
    (body : ℕ → List Call) (polls : List Poll) (meanwhile : List Other) (l : EventLoop)
    → l.looping ≡ false
    → IsAwake l
    → Returns (loop body polls l) (λ l'. IsAwake l' × IsAwake (outside meanwhile l'))
unfolding loop
loop-IsAwake body polls meanwhile l i h =
    let l' = turns body polls (record l { looping = true; quit = false }) in
    let a = turns-IsAwake body polls (record l { looping = true; quit = false }) h in
    let o = outside-IsAwake meanwhile (record l' { looping = false }) a in rw i (a, o)
