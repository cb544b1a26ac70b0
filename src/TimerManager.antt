-- ===== src/TimerManager.antt =====
-- net/Timer.h, net/TimerManager.h and net/TimerManager.cpp. Times are nanoseconds of the steady
-- clock. A timer object is known by its sequence number, so that the queue, the list of expired
-- timers and a handle share it; the priority queue is the list of its timers, top first.
pub mod Order
pub mod Arming
pub mod Firing
pub mod Soundness
pub mod Expiring
pub mod Reachable
mod Tests
use cannet.Common.{
  ℕ, ◌+◌, ◌-◌, ◌/◌, ◌%◌, ◌≤◌, ◌<◌, Bool, true, false, not, ◌&&◌, ◌||◌, Option, none, some, List, [],
  ◌∷◌, ◌++◌, ltb, leb, ◌==◌, if◌then◌else◌, ◌>>=◌, ◌>>◌, guard, ℤ, pos, neg,
}

pub record Timer : Type 0 where
  pub expiration : ℕ
  pub interval : ℕ
  pub repeat : Bool
  pub is_deleted : Bool

-- `sTimerNum_` is the next sequence number; `asked` is the expiration that timerfd_settime(2)
-- was last called for, whatever it answered; `fired` lists the callbacks that were run.
pub record TimerManager : Type 0 where
  pub timer : ℕ → Timer
  pub timer_num : ℕ
  pub queue : List ℕ
  pub asked : Option ℕ
  pub fired : List ℕ

-- The constructor: no timer has a number yet, and what the table holds does not matter.
unfoldable pub create : (ℕ → Timer) → TimerManager
create timer = record { timer = timer; timer_num = 0; queue = []; asked = none; fired = [] }

-- The timer of a sequence number given anew.
abbrev pub set_timer : ℕ → Timer → (ℕ → Timer) → ℕ → Timer
set_timer i t timer j = if j == i then t else timer j

-- Timer::Timer
unfoldable pub make_timer : ℕ → ℕ → Timer
make_timer expiration interval = record {
  expiration = expiration;
  interval = interval;
  repeat = ltb 0 interval;
  is_deleted = false;
}

unfoldable pub restart : ℕ → Timer → Timer
restart now t = record t { expiration = now + t.interval }

-- TimerCmp: the first timer comes after the second.
unfoldable pub timer_cmp : (ℕ → Timer) → ℕ → ℕ → Bool
timer_cmp timer a b =
    if (timer a).expiration == (timer b).expiration
    then ltb b a
    else ltb (timer b).expiration (timer a).expiration

-- push of the priority queue.
unfoldable pub push : (ℕ → Timer) → ℕ → List ℕ → List ℕ
unfolding timer_cmp
push timer a [] = a ∷ []
push timer a (b ∷ rest) = if timer_cmp timer b a then a ∷ b ∷ rest else b ∷ push timer a rest

-- resetTimerFd: the seconds and nanoseconds that timerfd_settime(2) is given, by C division.
unfoldable pub timer_spec : ℕ → ℕ → ℤ × ℤ
timer_spec expiration now =
    if leb now expiration
    then (pos ((expiration - now) / 1_000_000_000), pos ((expiration - now) % 1_000_000_000))
    else (neg ((now - expiration) / 1_000_000_000), neg ((now - expiration) % 1_000_000_000))

-- The call is recorded. What the kernel makes of the time it is given depends on `timer_spec`.
unfoldable pub reset_timer_fd : ℕ → TimerManager → TimerManager
reset_timer_fd expiration m = record m { asked = some expiration }

-- Whether the new timer is the earliest, and the queue with it.
unfoldable pub insert : ℕ → TimerManager → Bool × TimerManager
unfolding push
insert i m =
    let pushed = record m { queue = push m.timer i m.queue } in
    elim m.queue [
      | [] ↦ (true, pushed)
      | top ∷ rest ↦ (ltb (m.timer i).expiration (m.timer top).expiration, pushed)
    ]

unfoldable pub add_timer_in_loop : ℕ → TimerManager → TimerManager
unfolding insert reset_timer_fd
add_timer_in_loop i m =
    let (earliest_changed, m') = insert i m in
    if earliest_changed then reset_timer_fd (m'.timer i).expiration m' else m'

-- The object that `make_shared` makes, under the next sequence number.
unfoldable pub new_timer : ℕ → ℕ → TimerManager → ℕ × TimerManager
unfolding make_timer
new_timer when interval m = (
  m.timer_num,
  record m {
    timer = set_timer m.timer_num (make_timer when interval) m.timer;
    timer_num = m.timer_num + 1;
  },
)

-- addTimer on the loop's thread; `asserts` says whether the build checks them. The lambda copies the
-- pointer, so that `timer` still holds the object when the assert asks for null.
unfoldable pub add_timer : Bool → ℕ → ℕ → TimerManager → Option (ℕ × TimerManager)
unfolding new_timer add_timer_in_loop
add_timer asserts when interval m =
    let (i, m') = new_timer when interval m in
    let timer : Option ℕ = some i in
    let m'' = add_timer_in_loop i m' in
    (guard (not asserts || elim timer [ none ↦ true | some _ ↦ false ]) >> some (i, m''))

-- cancelInLoop for a handle whose timer is alive.
unfoldable pub cancel_in_loop : ℕ → TimerManager → TimerManager
cancel_in_loop i m = record m {
  timer = set_timer i (record (m.timer i) { is_deleted = true }) m.timer;
}

-- getExpired: the timers that are due and not deleted, in order, and the queue without what is due.
unfoldable pub get_expired : (ℕ → Timer) → ℕ → List ℕ → List ℕ × List ℕ
get_expired timer now [] = ([], [])
get_expired timer now (top ∷ rest) =
    let more = get_expired timer now rest in
    let kept = if (timer top).is_deleted then more else (top ∷ more.0, more.1) in
    if leb (timer top).expiration now then kept else ([], top ∷ rest)

-- What a callback does to the manager, in a build without asserts.
pub data Action : Type 0 where
  adds : ℕ → ℕ → Action
  cancels : ℕ → Action

unfoldable pub act : Action → TimerManager → TimerManager
unfolding new_timer add_timer_in_loop cancel_in_loop
act (adds when interval) m = let (i, m') = new_timer when interval m in add_timer_in_loop i m'
act (cancels i) m = cancel_in_loop i m

unfoldable pub act_all : List Action → TimerManager → TimerManager
unfolding act
act_all [] m = m
act_all (a ∷ rest) m = act_all rest (act a m)

unfoldable pub run_one : (ℕ → List Action) → ℕ → TimerManager → TimerManager
unfolding act_all
run_one callback i m =
    if (m.timer i).is_deleted
    then m
    else act_all (callback i) (record m { fired = m.fired ++ (i ∷ []) })

-- The loop of handleRead over the expired timers, with what each callback does.
unfoldable pub run_expired : (ℕ → List Action) → List ℕ → TimerManager → TimerManager
unfolding run_one
run_expired callback [] m = m
run_expired callback (i ∷ rest) m = run_expired callback rest (run_one callback i m)

unfoldable pub restart_one : ℕ → ℕ → TimerManager → TimerManager
unfolding insert restart
restart_one i now m =
    let t = m.timer i in
    if t.repeat && not t.is_deleted
    then (insert i (record m { timer = set_timer i (restart now t) m.timer })).1
    else m

-- The first loop of `reset`.
unfoldable pub restart_expired : List ℕ → ℕ → TimerManager → TimerManager
unfolding restart_one
restart_expired [] now m = m
restart_expired (i ∷ rest) now m = restart_expired rest now (restart_one i now m)

-- The second loop: the queue from its first timer on that is not deleted.
unfoldable pub skip_deleted : (ℕ → Timer) → List ℕ → List ℕ
skip_deleted timer [] = []
skip_deleted timer (top ∷ rest) =
    if (timer top).is_deleted then skip_deleted timer rest else top ∷ rest

unfoldable pub reset : List ℕ → ℕ → TimerManager → TimerManager
unfolding restart_expired skip_deleted reset_timer_fd
reset expired now m =
    let m' = restart_expired expired now m in
    let queue' = skip_deleted m'.timer m'.queue in
    elim queue' [
      | [] ↦ record m' { queue = [] }
      | top ∷ rest ↦ reset_timer_fd (m'.timer top).expiration (record m' { queue = top ∷ rest })
    ]

unfoldable pub handle_read : (ℕ → List Action) → ℕ → TimerManager → TimerManager
unfolding get_expired run_expired reset
handle_read callback now m =
    let (expired, rest) = get_expired m.timer now m.queue in
    reset expired now (run_expired callback expired (record m { queue = rest }))
