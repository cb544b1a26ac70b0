-- ===== src/TimerManager/Soundness.antt =====
-- What holds of the queue of net/TimerManager.cpp after any calls and any expirations.
use cannet.Common.{ℕ, ◌+◌, ◌≤◌, ◌<◌, ◌≡◌, refl, sym, subst, ◌⊎◌, true, List, [], ◌∷◌, arith, ==_iff}
use cannet.TimerManager.{
  Timer, TimerManager, Action, adds, cancels, set_timer, make_timer, push, new_timer, insert,
  add_timer_in_loop, cancel_in_loop, reset_timer_fd, act,
}
use cannet.TimerManager.Order.{AllAfter, IsSorted, push-IsSorted, count, count-push}

-- A queue that is sorted and holds each timer once, of those below a number.
pub record Sound (timer : ℕ → Timer) (queue : List ℕ) (num : ℕ) : Type 0 where
  pub sorted : IsSorted timer queue
  pub once : (i : ℕ) → count i queue ≤ 1
  pub below : (i : ℕ) → (count i queue ≡ 0) ⊎ (i < num)

abbrev pub IsSound : TimerManager → Type 0
IsSound m = Sound m.timer m.queue m.timer_num

-- Two timer tables agree on the expirations of what a queue holds.
abbrev pub Agree : (ℕ → Timer) → (ℕ → Timer) → List ℕ → Type 0
Agree f g q = (i : ℕ) → (count i q ≡ 0) ⊎ ((f i).expiration ≡ (g i).expiration)

pub Agree-head :
    (f g : ℕ → Timer) (a : ℕ) (q : List ℕ)
    → Agree f g (a ∷ q)
    → ((f a).expiration ≡ (g a).expiration) × Agree f g q
Agree-head f g a q h = (ground (arith, ==_iff a a, h a), λ i. ground (arith, h i))

AllAfter-Agree :
    (f g : ℕ → Timer) (a : ℕ) (q : List ℕ)
    → (f a).expiration ≡ (g a).expiration
    → Agree f g q
    → AllAfter f a q
    → AllAfter g a q
AllAfter-Agree f g a [] e h s = tt
AllAfter-Agree f g a (b ∷ q) e h s =
    let k = Agree-head f g b q h in (ground (arith, k.0, e, s.0), AllAfter-Agree f g a q e k.1 s.1)

IsSorted-Agree : (f g : ℕ → Timer) (q : List ℕ) → Agree f g q → IsSorted f q → IsSorted g q
IsSorted-Agree f g [] h s = tt
IsSorted-Agree f g (a ∷ q) h s =
    let k = Agree-head f g a q h in
    (AllAfter-Agree f g a q k.0 k.1 s.0, IsSorted-Agree f g q k.1 s.1)

-- A timer that is not in the queue is given an expiration and put in.
pushed-IsSorted :
    (timer : ℕ → Timer) (i : ℕ) (t : Timer) (q : List ℕ)
    → count i q ≡ 0
    → IsSorted timer q
    → IsSorted (set_timer i t timer) (push (set_timer i t timer) i q)
pushed-IsSorted timer i t q c s =
    push-IsSorted (set_timer i t timer) i q
      (IsSorted-Agree timer (set_timer i t timer) q (λ j. ground (arith, ==_iff j i, c)) s)

-- A timer that is not in the queue is set anew and put in.
pub pushed-Sound :
    (timer : ℕ → Timer) (i : ℕ) (t : Timer) (q : List ℕ) (n num : ℕ)
    → Sound timer q n
    → count i q ≡ 0
    → i < num
    → n ≤ num
    → Sound (set_timer i t timer) (push (set_timer i t timer) i q) num
pushed-Sound timer i t q n num s c h k =
    let timer' = set_timer i t timer in
    record {
      sorted = pushed-IsSorted timer i t q c s.sorted;
      once = λ j. ground (arith, count-push timer' j i q, s.once j, ==_iff j i, c);
      below = λ j. ground (arith, count-push timer' j i q, s.below j, ==_iff j i, c);
    }

pub by_fields :
    (m : TimerManager) (timer : ℕ → Timer) (q : List ℕ) (n : ℕ)
    → (m.timer ≡ timer) × (m.queue ≡ q) × (m.timer_num ≡ n)
    → Sound timer q n
    → IsSound m
by_fields m timer q n e s =
    subst (λ t. Sound t m.queue m.timer_num) (sym e.0)
      (subst (λ r. Sound timer r m.timer_num) (sym e.1) (subst (λ k. Sound timer q k) (sym e.2) s))

pub insert-fields :
    (i : ℕ) (m : TimerManager) (q : List ℕ)
    → m.queue ≡ q
    → let m' = (insert i m).1 in
      (m'.timer ≡ m.timer) × (m'.queue ≡ push m.timer i m.queue) × (m'.timer_num ≡ m.timer_num)
unfolding insert
insert-fields i m [] e = ground arith
insert-fields i m (top ∷ rest) e = ground arith

pub add-fields :
    (i : ℕ) (m : TimerManager)
    → let m' = add_timer_in_loop i m in
      (m'.timer ≡ m.timer) × (m'.queue ≡ push m.timer i m.queue) × (m'.timer_num ≡ m.timer_num)
unfolding add_timer_in_loop reset_timer_fd
add-fields i m = ground (arith, insert-fields i m m.queue refl)

pub act-IsSound : (a : Action) (m : TimerManager) → IsSound m → IsSound (act a m)
unfolding act new_timer cancel_in_loop
act-IsSound (adds when interval) m s =
    let i = m.timer_num in
    let n = (new_timer when interval m).1 in
    by_fields (add_timer_in_loop i n) n.timer (push n.timer i m.queue) (i + 1) (add-fields i n) (
      pushed-Sound m.timer i (make_timer when interval) m.queue i (i + 1) s
        (ground (arith, s.below i)) (omega arith) (omega arith))
act-IsSound (cancels i) m s = record {
  sorted =
      IsSorted-Agree m.timer (set_timer i (record (m.timer i) { is_deleted = true }) m.timer)
        m.queue (λ j. ground (arith, ==_iff j i)) s.sorted;
  once = s.once;
  below = s.below;
}
