-- ===== src/ThreadPool/Fairness.antt =====
-- The steps of a ThreadPool, and what they do with its tasks.
use native.Mathlib.Decide.{dec_lt}
use cannet.Common.{
  Bool-cases, inl, inr, ℕ, ◌+◌, ◌≤◌, ◌<◌, ◌≡◌, ◌≢◌, refl, sym, ap, subst, ◌∙◌, true, false, Option,
  none, some, List, [], ◌∷◌, ◌++◌, ◌==◌, if◌then◌else◌, arith, append_assoc, set_at, total,
  total-set_at, Returns, Returns-some,
}
use cannet.ThreadSafeQueue.{ThreadSafeQueue, pop_head, notify_all, lock}
use cannet.ThreadSafeQueue.Fifo.{
  Holds, Holds-is_empty, Holds-is_empty_cons, push-Holds, pop_head-Pops, Pops,
}
use cannet.ThreadPool.{
  Phase, absent, starting, checking, testing, asleep, ended, holding, ThreadPool, add_task, stop,
  check, wait_and_pop, run_task, Step, adds, stops, begins, checks, waits, wakes, runs,
}

-- notify_all locks headMutex_, and `empty` in it locks it once more: it does not come back.
pub stop_lem : (p : ThreadPool) → stop p ≡ record p { running = false; head_locked = true }
unfolding stop notify_all lock
stop_lem p = elim (Bool-cases p.head_locked) [ inl held ↦ rw held refl | inr free ↦ rw free refl ]

-- How often a task stands in a list, and whether a thread holds it.
abbrev pub is_task : ℕ → Option ℕ → ℕ
is_task t none = 0
is_task t (some u) = if u == t then 1 else 0

abbrev pub times : ℕ → List (Option ℕ) → ℕ
times t [] = 0
times t (task ∷ rest) = is_task t task + times t rest

abbrev pub times_ran : ℕ → List ℕ → ℕ
times_ran t [] = 0
times_ran t (u ∷ rest) = is_task t (some u) + times_ran t rest

abbrev pub held : ℕ → Phase → ℕ
held t (holding task) = is_task t task
held t _ = 0

-- `rest` is in the queue: with what was taken it is what was added. A task was run, and is held by
-- threads, as often as it was taken.
pub record Fair (n : ℕ) (p : ThreadPool) : Type 0 where
  pub rest : List (Option ℕ)
  pub in_queue : Holds p.queue rest
  pub order : p.taken ++ rest ≡ p.added
  pub beyond : (i : ℕ) → n ≤ i → p.worker i ≡ absent
  pub balanced : (t : ℕ) → times_ran t p.ran + total (held t) n p.worker ≡ times t p.taken

times-append :
    (t : ℕ) (xs : List (Option ℕ)) (task : Option ℕ)
    → times t (xs ++ (task ∷ [])) ≡ times t xs + is_task t task
times-append t [] task = omega arith
times-append t (x ∷ xs) task = omega (arith, times-append t xs task)

times_ran-append :
    (t u : ℕ) (xs : List ℕ) → times_ran t (xs ++ (u ∷ [])) ≡ times_ran t xs + is_task t (some u)
times_ran-append t u [] = omega arith
times_ran-append t u (x ∷ xs) = omega (arith, times_ran-append t u xs)

-- A thread that stands somewhere is one of the first `n`.
below : (n i : ℕ) (p : ThreadPool) (ph : Phase) → Fair n p → p.worker i ≡ ph → ph ≢ absent → i < n
below n i p ph f e h = elim (dec_lt i n) [
  | yes lt ↦ lt
  | no ge ↦ absurd (h (sym e ∙ f.beyond i (omega arith)))
]

beyond-set_at :
    (n i : ℕ) (ph : Phase) (worker : ℕ → Phase)
    → i < n
    → ((j : ℕ) → n ≤ j → worker j ≡ absent)
    → (j : ℕ) → n ≤ j
    → set_at i ph worker j ≡ absent
beyond-set_at n i ph worker h b j k = ground (arith, b j)

-- A thread moves without a task, before and after.
moved-Fair :
    (n i : ℕ) (p : ThreadPool) (ph ph' : Phase)
    → Fair n p
    → p.worker i ≡ ph
    → ph ≢ absent
    → ((t : ℕ) → held t ph ≡ 0)
    → ((t : ℕ) → held t ph' ≡ 0)
    → Fair n (record p { worker = set_at i ph' p.worker })
moved-Fair n i p ph ph' f e h z z' =
    let lt = below n i p ph f e h in
    record {
      rest = f.rest;
      in_queue = f.in_queue;
      order = f.order;
      beyond = beyond-set_at n i ph' p.worker lt f.beyond;
      balanced = λ t. omega (
        arith,
        f.balanced t,
        total-set_at (held t) n i ph' p.worker lt,
        ap (held t) e,
        z t,
        z' t,
      );
    }

pub add_task-Fair : (n : ℕ) (task : Option ℕ) (p : ThreadPool) → Fair n p → Fair n (add_task task p)
unfolding add_task
add_task-Fair n task p f = record {
  rest = f.rest ++ (task ∷ []);
  in_queue = push-Holds task p.queue f.rest f.in_queue;
  order = sym (append_assoc p.taken f.rest (task ∷ [])) ∙ ap (λ x. x ++ (task ∷ [])) f.order;
  beyond = f.beyond;
  balanced = f.balanced;
}

run_task-Fair :
    (n i : ℕ) (task : Option ℕ) (p : ThreadPool)
    → Fair n p
    → p.worker i ≡ holding task
    → Fair n (run_task i task p)
unfolding run_task
run_task-Fair n i none p f e =
    moved-Fair n i p (holding none) checking f e (λ h. cc h) (λ t. refl) (λ t. refl)
run_task-Fair n i (some u) p f e =
    let lt = below n i p (holding (some u)) f e (λ h. cc h) in
    record {
      rest = f.rest;
      in_queue = f.in_queue;
      order = f.order;
      beyond = beyond-set_at n i checking p.worker lt f.beyond;
      balanced = λ t. omega (
        arith,
        f.balanced t,
        total-set_at (held t) n i checking p.worker lt,
        ap (held t) e,
        times_ran-append t u p.ran,
      );
    }

-- A thread that has found a task takes it from the front of the queue.
taken-Fair :
    (n i : ℕ) (p : ThreadPool) (task : Option ℕ) (rest : List (Option ℕ))
    (q : ThreadSafeQueue (Option ℕ))
    → Fair n p
    → p.taken ++ (task ∷ rest) ≡ p.added
    → p.worker i ≡ testing
    → Holds q rest
    → Fair n (record p {
      queue = q;
      taken = p.taken ++ (task ∷ []);
      worker = set_at i (holding task) p.worker;
    })
taken-Fair n i p task rest q f o e h =
    let lt = below n i p testing f e (λ h'. cc h') in
    record {
      rest = rest;
      in_queue = h;
      order = append_assoc p.taken (task ∷ []) rest ∙ o;
      beyond = beyond-set_at n i (holding task) p.worker lt f.beyond;
      balanced = λ t. omega (
        arith,
        f.balanced t,
        total-set_at (held t) n i (holding task) p.worker lt,
        ap (held t) e,
        times-append t p.taken task,
      );
    }

wait_and_pop-from :
    (n i : ℕ) (p : ThreadPool) (rest : List (Option ℕ))
    → Fair n p
    → p.worker i ≡ testing
    → Holds p.queue rest
    → p.taken ++ rest ≡ p.added
    → Returns (wait_and_pop i p) (Fair n)
unfolding wait_and_pop
wait_and_pop-from n i p [] f e h o =
    rw (Holds-is_empty p.queue h)
      (moved-Fair n i p testing asleep f e (λ h'. cc h') (λ t. refl) (λ t. refl))
wait_and_pop-from n i p (task ∷ rest) f e h o =
    let (r, popped, (value, left)) =
      Returns-some (Pops (some task) rest) (pop_head p.queue) (pop_head-Pops p.queue task rest h) in
    rw (Holds-is_empty_cons p.queue task rest h, popped, value)
      (taken-Fair n i p task rest r.1 f o e left)

pub wait_and_pop-added :
    (i : ℕ) (p : ThreadPool) (rest : List (Option ℕ))
    → Holds p.queue rest
    → Returns (wait_and_pop i p) (λ q. q.added ≡ p.added)
unfolding wait_and_pop
wait_and_pop-added i p [] h = rw (Holds-is_empty p.queue h) refl
wait_and_pop-added i p (task ∷ rest) h =
    let (r, popped, (value, left)) =
      Returns-some (Pops (some task) rest) (pop_head p.queue) (pop_head-Pops p.queue task rest h) in
    rw (Holds-is_empty_cons p.queue task rest h, popped, value) refl

pub Step-Fair : (n : ℕ) {p q : ThreadPool} → Fair n p → Step p q → Fair n q
unfolding check
Step-Fair n {p} f (adds task) = add_task-Fair n task p f
Step-Fair n {p} f stops = rw (stop_lem p) record {
  rest = f.rest;
  in_queue = f.in_queue;
  order = f.order;
  beyond = f.beyond;
  balanced = f.balanced;
}
Step-Fair n {p} f (begins i e) =
    moved-Fair n i p starting checking f e (λ h. cc h) (λ t. refl) (λ t. refl)
Step-Fair n {p} f (checks i e) =
    moved-Fair n i p checking (if p.running then testing else ended) f e (λ h. cc h) (λ t. refl)
      (λ t. elim p.running as (λ b. held t (if b then testing else ended) ≡ 0) [
        | true ↦ refl
        | false ↦ refl
      ])
Step-Fair n {p} f (waits i p' e unlocked s) =
    subst (λ r. Returns r (Fair n)) s (wait_and_pop-from n i p f.rest f e f.in_queue f.order)
Step-Fair n {p} f (wakes i e) =
    moved-Fair n i p asleep testing f e (λ h. cc h) (λ t. refl) (λ t. refl)
Step-Fair n {p} f (runs i task e) = run_task-Fair n i task p f e
