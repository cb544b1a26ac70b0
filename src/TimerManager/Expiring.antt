-- ===== src/TimerManager/Expiring.antt =====
-- handleRead of net/TimerManager.cpp keeps the queue sound.
use cannet.Common.{
  ℕ, ◌+◌, ◌≤◌, ◌<◌, ◌≡◌, refl, ap, ◌⊎◌, inl, inr, not, ◌&&◌, List, [], ◌∷◌, ◌++◌, arith, Bool-cases,
  leb, ==_iff,
}
use cannet.TimerManager.{
  Timer, TimerManager, Action, adds, cancels, set_timer, restart, push, new_timer, insert,
  cancel_in_loop, reset_timer_fd, act, act_all, get_expired, run_one, run_expired, restart_one,
  restart_expired, skip_deleted, reset, handle_read,
}
use cannet.TimerManager.Order.{AllAfter, IsSorted, count, count-push}
use cannet.TimerManager.Soundness.{
  Sound, IsSound, pushed-Sound, by_fields, insert-fields, add-fields, act-IsSound,
}

-- Timers that were taken off the queue: each once, and not in the queue.
record Taken (expired queue : List ℕ) (num : ℕ) : Type 0 where
  once : (i : ℕ) → count i expired ≤ 1
  apart : (i : ℕ) → (count i expired ≡ 0) ⊎ ((count i queue ≡ 0) × (i < num))

AllAfter-expired :
    (timer : ℕ → Timer) (a now : ℕ) (q : List ℕ)
    → AllAfter timer a q
    → AllAfter timer a (get_expired timer now q).1
unfolding get_expired
AllAfter-expired timer a now [] h = tt
AllAfter-expired timer a now (top ∷ q) h =
    let more = AllAfter-expired timer a now q h.1 in
    elim (Bool-cases (leb (timer top).expiration now)) [
      | inl due ↦ elim (Bool-cases (timer top).is_deleted) [
        | inl gone ↦ rw (due, gone) more
        | inr live ↦ rw (due, live) more
      ]
      | inr late ↦ rw late h
    ]

IsSorted-expired :
    (timer : ℕ → Timer) (now : ℕ) (q : List ℕ)
    → IsSorted timer q
    → IsSorted timer (get_expired timer now q).1
unfolding get_expired
IsSorted-expired timer now [] s = tt
IsSorted-expired timer now (top ∷ q) s =
    let more = IsSorted-expired timer now q s.1 in
    elim (Bool-cases (leb (timer top).expiration now)) [
      | inl due ↦ elim (Bool-cases (timer top).is_deleted) [
        | inl gone ↦ rw (due, gone) more
        | inr live ↦ rw (due, live) more
      ]
      | inr late ↦ rw late s
    ]

count-expired :
    (timer : ℕ → Timer) (now i : ℕ) (q : List ℕ)
    → let (expired, rest) = get_expired timer now q in count i expired + count i rest ≤ count i q
unfolding get_expired
count-expired timer now i [] = omega arith
count-expired timer now i (top ∷ q) = ground (arith, count-expired timer now i q)

abbrev With : List ℕ → TimerManager → Type 0
With expired m = IsSound m × Taken expired m.queue m.timer_num

act-With :
    (a : Action) (expired : List ℕ) (m : TimerManager) → With expired m → With expired (act a m)
unfolding act new_timer cancel_in_loop
act-With (adds when interval) expired m (s, t) =
    let i = m.timer_num in
    let n = (new_timer when interval m).1 in
    let (f, g, h) = add-fields i n in
    (
      act-IsSound (adds when interval) m s,
      record {
        once = t.once;
        apart = λ j.
            ground
              (arith, ap (count j) g, h, count-push n.timer j i m.queue, t.apart j, ==_iff j i);
      },
    )
act-With (cancels i) expired m (s, t) = (act-IsSound (cancels i) m s, t)

act_all-With :
    (actions : List Action) (expired : List ℕ) (m : TimerManager)
    → With expired m
    → With expired (act_all actions m)
unfolding act_all
act_all-With [] expired m h = h
act_all-With (a ∷ rest) expired m h = act_all-With rest expired (act a m) (act-With a expired m h)

run_one-With :
    (callback : ℕ → List Action) (i : ℕ) (expired : List ℕ) (m : TimerManager)
    → With expired m
    → With expired (run_one callback i m)
unfolding run_one
run_one-With callback i expired m h =
    let ran = act_all-With (callback i) expired (record m { fired = m.fired ++ (i ∷ []) }) h in
    elim (Bool-cases (m.timer i).is_deleted) [ inl gone ↦ rw gone h | inr live ↦ rw live ran ]

run_expired-With :
    (callback : ℕ → List Action) (due expired : List ℕ) (m : TimerManager)
    → With expired m
    → With expired (run_expired callback due m)
unfolding run_expired
run_expired-With callback [] expired m h = h
run_expired-With callback (i ∷ due) expired m h =
    run_expired-With callback due expired (run_one callback i m)
      (run_one-With callback i expired m h)

restart_one-With :
    (i now : ℕ) (rest : List ℕ) (m : TimerManager)
    → With (i ∷ rest) m
    → With rest (restart_one i now m)
unfolding restart_one
restart_one-With i now rest m (s, t) =
    let timer' = set_timer i (restart now (m.timer i)) m.timer in
    let n = record m { timer = timer' } in
    let e = insert-fields i n m.queue refl in
    let free : (count i m.queue ≡ 0) × (i < m.timer_num) = ground (arith, t.apart i, ==_iff i i) in
    let spent : count i rest ≡ 0 = ground (arith, t.once i, ==_iff i i) in
    elim (Bool-cases ((m.timer i).repeat && not (m.timer i).is_deleted)) [
      | inl again ↦
          rw (again, restart_one)
            (
              by_fields (insert i n).1 timer' (push timer' i m.queue) m.timer_num e (
                  pushed-Sound m.timer i (restart now (m.timer i)) m.queue m.timer_num m.timer_num s
                    free.0 free.1 (omega arith)),
              record {
                once = λ j. ground (arith, t.once j);
                apart = λ j. ground (
                  arith,
                  ap (count j) e.1,
                  e.2,
                  count-push timer' j i m.queue,
                  t.apart j,
                  ==_iff j i,
                  spent,
                );
              },
            )
      | inr over ↦
          rw (over, restart_one)
            (
              s,
              record {
                once = λ j. ground (arith, t.once j);
                apart = λ j. ground (arith, t.apart j);
              },
            )
    ]

restart_expired-With :
    (expired : List ℕ) (now : ℕ) (m : TimerManager)
    → With expired m
    → IsSound (restart_expired expired now m)
unfolding restart_expired
restart_expired-With [] now m h = h.0
restart_expired-With (i ∷ rest) now m h =
    restart_expired-With rest now (restart_one i now m) (restart_one-With i now rest m h)

skip_deleted-Sound :
    (timer : ℕ → Timer) (q : List ℕ) (num : ℕ)
    → Sound timer q num
    → Sound timer (skip_deleted timer q) num
unfolding skip_deleted
skip_deleted-Sound timer [] num s = s
skip_deleted-Sound timer (top ∷ q) num s =
    let rest : Sound timer q num = record {
      sorted = s.sorted.1;
      once = λ i. ground (arith, s.once i);
      below = λ i. ground (arith, s.below i);
    } in
    let skipped = skip_deleted-Sound timer q num rest in
    elim (Bool-cases (timer top).is_deleted) [ inl gone ↦ rw gone skipped | inr live ↦ rw live s ]

reset-fields :
    (expired q : List ℕ) (now : ℕ) (m : TimerManager)
    → let n = restart_expired expired now m in
      skip_deleted n.timer n.queue ≡ q
      → let m' = reset expired now m in
        (m'.timer ≡ n.timer)
        × (m'.queue ≡ skip_deleted n.timer n.queue)
        × (m'.timer_num ≡ n.timer_num)
unfolding reset reset_timer_fd
reset-fields expired [] now m e = rw (e, reset) (refl, refl, refl)
reset-fields expired (top ∷ rest) now m e = rw (e, reset) (refl, refl, refl)

-- `handleRead` keeps the queue sorted and free of doubles, whatever the callbacks add and cancel: a
-- timer that comes back has left the queue before.
pub handle_read-IsSound :
    (callback : ℕ → List Action) (now : ℕ) (m : TimerManager)
    → IsSound m
    → IsSound (handle_read callback now m)
unfolding handle_read
handle_read-IsSound callback now m s =
    let taken = get_expired m.timer now m.queue in
    let start = record m { queue = taken.1 } in
    let h : With taken.0 start = (
      record {
        sorted = IsSorted-expired m.timer now m.queue s.sorted;
        once = λ i. omega (arith, count-expired m.timer now i m.queue, s.once i);
        below = λ i. ground (arith, count-expired m.timer now i m.queue, s.below i);
      },
      record {
        once = λ i. omega (arith, count-expired m.timer now i m.queue, s.once i);
        apart = λ i. ground (arith, count-expired m.timer now i m.queue, s.once i, s.below i);
      },
    ) in
    let ran = run_expired callback taken.0 start in
    let n = restart_expired taken.0 now ran in
    by_fields (reset taken.0 now ran) n.timer (skip_deleted n.timer n.queue) n.timer_num
      (reset-fields taken.0 _ now ran refl)
      (skip_deleted-Sound n.timer n.queue n.timer_num
        (restart_expired-With taken.0 now ran (run_expired-With callback taken.0 taken.0 start h)))
