-- ===== src/TimerManager/Firing.antt =====
-- Which timers `getExpired` and `handleRead` of net/TimerManager.cpp take, run and keep.
use cannet.Common.{
  ℕ, ◌+◌, ◌≤◌, ◌<◌, ◌≡◌, refl, sym, ap, ◌∙◌, inl, inr, Bool, false, not, ◌&&◌, List, [], ◌∷◌, ◌++◌,
  arith, Bool-cases, leb, ==_iff, if◌then◌else◌,
}
use cannet.TimerManager.{
  Timer, TimerManager, Action, get_expired, run_expired, restart_expired, restart, set_timer,
  insert, reset, reset_timer_fd, skip_deleted, handle_read, run_one, restart_one,
}
use cannet.TimerManager.Order.{IsSorted, AllAfter, count, count-push}

abbrev pub is_due : (ℕ → Timer) → ℕ → ℕ → Bool
is_due timer now i = leb (timer i).expiration now

-- Behind a timer that is not due, no timer is.
none_due :
    (timer : ℕ → Timer) (now top i : ℕ) (q : List ℕ)
    → AllAfter timer top q
    → now < (timer top).expiration
    → (timer i).expiration ≤ now
    → count i (top ∷ q) ≡ 0
none_due timer now top i [] h late due = ground (arith, ==_iff i top)
none_due timer now top i (b ∷ q) h late due =
    ground (arith, ==_iff i top, ==_iff i b, none_due timer now top i q h.1 late due)

-- From a sorted queue `getExpired` takes each timer that is due and not deleted, as often as it
-- stands there, and leaves exactly those that are not due.
pub get_expired-count :
    (timer : ℕ → Timer) (now i : ℕ) (q : List ℕ)
    → IsSorted timer q
    → let (expired, rest) = get_expired timer now q in
      (count i expired ≡ (if is_due timer now i && not (timer i).is_deleted then count i q else 0))
      × (count i rest ≡ (if is_due timer now i then 0 else count i q))
unfolding get_expired
get_expired-count timer now i [] s = ground arith
get_expired-count timer now i (top ∷ q) s =
    ground
      (arith, ==_iff i top, none_due timer now top i q s.0, get_expired-count timer now i q s.1)

count-append : (i : ℕ) (xs ys : List ℕ) → count i (xs ++ ys) ≡ count i xs + count i ys
count-append i [] ys = omega arith
count-append i (x ∷ xs) ys = ground (arith, count-append i xs ys)

-- Callbacks that leave the manager alone.
abbrev pub quiet : ℕ → List Action
quiet i = []

run_one-quiet :
    (j i : ℕ) (m : TimerManager)
    → let m' = run_one quiet j m in
      (m'.timer ≡ m.timer)
      × (m'.queue ≡ m.queue)
      × (count i m'.fired
          ≡ count i m.fired + (if (m.timer i).is_deleted then 0 else count i (j ∷ [])))
unfolding run_one
run_one-quiet j i m = ground (arith, ==_iff i j, count-append i m.fired (j ∷ []))

count-cons : (i j : ℕ) (q : List ℕ) → count i (j ∷ q) ≡ count i (j ∷ []) + count i q
count-cons i j q = ground arith

run_expired-quiet :
    (expired : List ℕ) (i : ℕ) (m : TimerManager)
    → let m' = run_expired quiet expired m in
      (m'.timer ≡ m.timer)
      × (m'.queue ≡ m.queue)
      × (count i m'.fired
          ≡ count i m.fired + (if (m.timer i).is_deleted then 0 else count i expired))
unfolding run_expired
run_expired-quiet [] i m = (refl, refl, ground arith)
run_expired-quiet (j ∷ rest) i m =
    let (t, q, c) = run_one-quiet j i m in
    let (t', q', c') = run_expired-quiet rest i (run_one quiet j m) in
    (t' ∙ t, q' ∙ q, ground (arith, c, c', ap (λ f. (f i).is_deleted) t, count-cons i j rest))

restart_one-count :
    (j now i : ℕ) (m : TimerManager)
    → let m' = restart_one j now m in
      ((m'.timer i).is_deleted ≡ (m.timer i).is_deleted)
      × ((m'.timer i).repeat ≡ (m.timer i).repeat)
      × (m'.fired ≡ m.fired)
      × (count i m'.queue
          ≡ count i m.queue
            + (if (m.timer i).repeat && not (m.timer i).is_deleted then count i (j ∷ []) else 0))
unfolding restart_one restart insert
restart_one-count j now i m = elim (Bool-cases ((m.timer j).repeat && not (m.timer j).is_deleted)) [
  | inl e ↦
      let timer' = set_timer j (restart now (m.timer j)) m.timer in
      rw (e, restart_one) (ground (arith, ==_iff i j, count-push timer' i j m.queue))
  | inr e ↦ rw (e, restart_one) (ground (arith, ==_iff i j))
]

restart_expired-count :
    (expired : List ℕ) (now i : ℕ) (m : TimerManager)
    → let m' = restart_expired expired now m in
      ((m'.timer i).is_deleted ≡ (m.timer i).is_deleted)
      × (m'.fired ≡ m.fired)
      × (count i m'.queue
          ≡ count i m.queue
            + (if (m.timer i).repeat && not (m.timer i).is_deleted then count i expired else 0))
unfolding restart_expired
restart_expired-count [] now i m = (refl, refl, ground arith)
restart_expired-count (j ∷ rest) now i m =
    let (d, r, f, c) = restart_one-count j now i m in
    let (d', f', c') = restart_expired-count rest now i (restart_one j now m) in
    (d' ∙ d, f' ∙ f, ground (arith, d, r, c, c', count-cons i j rest))

skip_deleted-count :
    (timer : ℕ → Timer) (i : ℕ) (q : List ℕ)
    → (timer i).is_deleted ≡ false
    → count i (skip_deleted timer q) ≡ count i q
unfolding skip_deleted
skip_deleted-count timer i [] h = refl
skip_deleted-count timer i (j ∷ q) h = ground (arith, ==_iff i j, skip_deleted-count timer i q h)

reset-count :
    (q expired : List ℕ) (now i : ℕ) (m : TimerManager)
    → skip_deleted (restart_expired expired now m).timer (restart_expired expired now m).queue ≡ q
    → (m.timer i).is_deleted ≡ false
    → let m' = reset expired now m in
      (m'.fired ≡ m.fired)
      × (count i m'.queue ≡ count i m.queue + (if (m.timer i).repeat then count i expired else 0))
unfolding reset reset_timer_fd
reset-count [] expired now i m e h =
    let n = restart_expired expired now m in
    let (d, f, c) = restart_expired-count expired now i m in
    let s = skip_deleted-count n.timer i n.queue (d ∙ h) in
    rw (e, reset) (ground (arith, e, h, f, c, ap (count i) e, s))
reset-count (top ∷ rest) expired now i m e h =
    let n = restart_expired expired now m in
    let (d, f, c) = restart_expired-count expired now i m in
    let s = skip_deleted-count n.timer i n.queue (d ∙ h) in
    rw (e, reset) (f, sym (ap (count i) e) ∙ s ∙ ground (arith, h, c))

-- One call of `handleRead` with callbacks that leave the timers alone: a timer that is not deleted
-- runs as often as it stands in the queue if it is due, and not at all otherwise; afterwards it
-- still stands there if it repeats or was not due, and is gone otherwise.
pub handle_read-count :
    (now i : ℕ) (m : TimerManager)
    → IsSorted m.timer m.queue
    → (m.timer i).is_deleted ≡ false
    → let m' = handle_read quiet now m in
      (count i m'.fired ≡ count i m.fired + (if is_due m.timer now i then count i m.queue else 0))
      × (count i m'.queue
          ≡ (if is_due m.timer now i && not (m.timer i).repeat then 0 else count i m.queue))
unfolding handle_read
handle_read-count now i m s h =
    let taken = get_expired m.timer now m.queue in
    let n = record m { queue = taken.1 } in
    let (t, q, c) = run_expired-quiet taken.0 i n in
    let live = ap (λ f. (f i).is_deleted) t in
    let again = ap (λ f. (f i).repeat) t in
    let (f, c') = reset-count _ taken.0 now i (run_expired quiet taken.0 n) refl (live ∙ h) in
    let (e, k) = get_expired-count m.timer now i m.queue s in
    (ap (count i) f ∙ ground (arith, c, e, h), ground (arith, c', ap (count i) q, again, e, k, h))
