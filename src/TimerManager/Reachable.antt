-- ===== src/TimerManager/Reachable.antt =====
-- What holds in every state that a TimerManager can reach.
use cannet.Common.{ℕ, refl, ap, ◌∙◌, inl, true, Option, some, List, [], ◌∷◌, arith, ==_iff}
use cannet.TimerManager.{
  Timer, TimerManager, Action, adds, cancels, set_timer, new_timer, cancel_in_loop, act, act_all,
  handle_read, create,
}
use cannet.TimerManager.Arming.{Armed, IsArmed, add_timer_in_loop-IsArmed, handle_read-IsReady}
use cannet.TimerManager.Soundness.{IsSound, Agree, Agree-head, act-IsSound}
use cannet.TimerManager.Expiring.{handle_read-IsSound}

-- What happens to a manager: calls of the user, or the timer descriptor fires at some moment.
pub data Event : Type 0 where
  calls : List Action → Event
  expires : (ℕ → List Action) → ℕ → Event

abbrev pub run : List Event → TimerManager → TimerManager
run [] m = m
run (calls actions ∷ rest) m = run rest (act_all actions m)
run (expires callback now ∷ rest) m = run rest (handle_read callback now m)

Armed-Agree :
    (f g : ℕ → Timer) (q : List ℕ) (asked : Option ℕ)
    → Agree f g q
    → Armed f q asked
    → Armed g q asked
Armed-Agree f g [] asked h a = tt
Armed-Agree f g (top ∷ q) asked h a = a ∙ ap some (Agree-head f g top q h).0

act-IsArmed : (a : Action) (m : TimerManager) → IsSound m → IsArmed m → IsArmed (act a m)
unfolding act new_timer cancel_in_loop
act-IsArmed (adds when interval) m s h =
    let i = m.timer_num in
    let n = (new_timer when interval m).1 in
    add_timer_in_loop-IsArmed i n
      (Armed-Agree m.timer n.timer m.queue m.asked (λ j. ground (arith, s.below j, ==_iff j i)) h)
act-IsArmed (cancels i) m s h =
    let timer' = set_timer i (record (m.timer i) { is_deleted = true }) m.timer in
    Armed-Agree m.timer timer' m.queue m.asked (λ j. ground (arith, ==_iff j i)) h

-- Sound, and the last call of timerfd_settime(2) was for the first timer.
abbrev pub IsServing : TimerManager → Type 0
IsServing m = IsSound m × IsArmed m

pub create-IsServing : (timer : ℕ → Timer) → IsServing (create timer)
unfolding create
create-IsServing timer =
    (record { sorted = tt; once = λ i. omega arith; below = λ i. inl refl }, tt)

act_all-IsServing :
    (actions : List Action) (m : TimerManager) → IsServing m → IsServing (act_all actions m)
unfolding act_all
act_all-IsServing [] m h = h
act_all-IsServing (a ∷ rest) m h =
    act_all-IsServing rest (act a m) (act-IsSound a m h.0, act-IsArmed a m h.0 h.1)

-- From a state that is so, as a new manager is, whatever is added and cancelled, by callbacks as well,
-- and whenever the descriptor fires: the queue is sorted, holds each timer at most once, and the last
-- call of timerfd_settime(2), if the queue has a timer, was for the expiration of its first one. The
-- kernel starts on it where that lies ahead; a time that has passed is given to it as zero or negative.
pub run-IsServing :
    (events : List Event) (m : TimerManager) → IsServing m → IsServing (run events m)
run-IsServing [] m h = h
run-IsServing (calls actions ∷ rest) m h =
    run-IsServing rest (act_all actions m) (act_all-IsServing actions m h)
run-IsServing (expires callback now ∷ rest) m h =
    run-IsServing rest (handle_read callback now m)
      (handle_read-IsSound callback now m h.0, (handle_read-IsReady callback now m).0)
