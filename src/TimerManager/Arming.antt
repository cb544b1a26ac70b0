-- ===== src/TimerManager/Arming.antt =====
-- The calls of timerfd_settime(2) in net/TimerManager.cpp follow the head of the queue.
use cannet.Common.{
  ℕ, zero, suc, ◌+◌, ◌-◌, ◌*◌, ◌/◌, ◌%◌, ◌≤◌, ◌<◌, ◌≡◌, refl, ◌⊎◌, inl, inr, Bool-cases, subst,
  false, true, Option, some, List, [], ◌∷◌, arith, pos, neg, abs, is_negative,
}
use cannet.TimerManager.{
  Timer, TimerManager, Action, timer_cmp, push, insert, add_timer_in_loop, reset_timer_fd, reset,
  handle_read, get_expired, run_expired, restart_expired, skip_deleted, timer_spec,
}

-- A queue that is not empty had timerfd_settime(2) called last for the expiration of its top.
abbrev pub Armed : (ℕ → Timer) → List ℕ → Option ℕ → Type 0
Armed timer [] asked = Unit
Armed timer (top ∷ rest) asked = asked ≡ some (timer top).expiration

abbrev pub IsArmed : TimerManager → Type 0
IsArmed m = Armed m.timer m.queue m.asked

inserted-Armed :
    (i : ℕ) (m : TimerManager) (q : List ℕ)
    → m.queue ≡ q
    → Armed m.timer q m.asked
    → IsArmed (add_timer_in_loop i m)
unfolding add_timer_in_loop insert push reset_timer_fd timer_cmp
inserted-Armed i m [] e h = ground arith
inserted-Armed i m (top ∷ rest) e h = ground arith

-- After a new timer the last call is still for the earliest expiration.
pub add_timer_in_loop-IsArmed :
    (i : ℕ) (m : TimerManager) → IsArmed m → IsArmed (add_timer_in_loop i m)
add_timer_in_loop-IsArmed i m h = inserted-Armed i m m.queue refl h

-- The first timer is not deleted.
abbrev pub FirstLives : (ℕ → Timer) → List ℕ → Type 0
FirstLives timer [] = Unit
FirstLives timer (top ∷ rest) = (timer top).is_deleted ≡ false

skip_deleted-FirstLives : (timer : ℕ → Timer) (q : List ℕ) → FirstLives timer (skip_deleted timer q)
unfolding skip_deleted
skip_deleted-FirstLives timer [] = tt
skip_deleted-FirstLives timer (top ∷ rest) =
    let rec = skip_deleted-FirstLives timer rest in
    elim (Bool-cases (timer top).is_deleted) [ inl h ↦ rw h rec | inr h ↦ rw h h ]

-- The first timer lives and the last call was for its expiration, or the queue is empty.
abbrev pub IsReady : TimerManager → Type 0
IsReady m = IsArmed m × FirstLives m.timer m.queue

reset-IsReady :
    (q expired : List ℕ) (now : ℕ) (m : TimerManager)
    → skip_deleted (restart_expired expired now m).timer (restart_expired expired now m).queue ≡ q
    → IsReady (reset expired now m)
unfolding reset reset_timer_fd
reset-IsReady [] expired now m e = rw (e, reset) (tt, tt)
reset-IsReady (top ∷ rest) expired now m e =
    let m' = restart_expired expired now m in
    let first = subst (FirstLives m'.timer) e (skip_deleted-FirstLives m'.timer m'.queue) in
    rw (e, reset) (refl, first)

-- Whatever the callbacks add and cancel, `handleRead` leaves the queue empty, or with a first timer
-- that is not deleted and the last call for its expiration.
pub handle_read-IsReady :
    (callback : ℕ → List Action) (now : ℕ) (m : TimerManager) → IsReady (handle_read callback now m)
unfolding handle_read
handle_read-IsReady callback now m =
    let taken = get_expired m.timer now m.queue in
    reset-IsReady _ taken.0 now (run_expired callback taken.0 (record m { queue = taken.1 })) refl

-- A moment that lies ahead is given to the kernel exactly, and is not zero.
pub timer_spec_ahead :
    (expiration now : ℕ)
    → now < expiration
    → let (sec, nsec) = timer_spec expiration now in
      (sec ≡ pos (abs sec))
      × (nsec ≡ pos (abs nsec))
      × (abs sec * 1_000_000_000 + abs nsec ≡ expiration - now)
      × (abs nsec < 1_000_000_000)
unfolding timer_spec
timer_spec_ahead expiration now h = ground arith

neg-is_negative : (n : ℕ) → 0 < n → is_negative (neg n) ≡ true
neg-is_negative zero h = absurd (omega arith)
neg-is_negative (suc n) h = refl

-- A moment that has passed gives a negative time, and the present gives zero, the time that switches
-- a timer descriptor off.
pub timer_spec_past :
    (expiration now : ℕ)
    → expiration ≤ now
    → let (sec, nsec) = timer_spec expiration now in
      ((expiration ≡ now) × (sec ≡ pos 0) × (nsec ≡ pos 0))
      ⊎ ((is_negative sec ≡ true) ⊎ (is_negative nsec ≡ true))
unfolding timer_spec
timer_spec_past expiration now h = ground (
  arith,
  neg-is_negative ((now - expiration) / 1_000_000_000),
  neg-is_negative ((now - expiration) % 1_000_000_000),
)
