-- ===== src/ThreadPool/Stopping.antt =====
-- What `stop` of a ThreadPool does to its threads.
use cannet.ThreadPool.Fairness.{stop_lem}
use cannet.Common.{
  ℕ, ◌≡◌, ◌≢◌, refl, ap, ◌∙◌, ◌⊎◌, inl, inr, true, Option, none, some, List, ◌==◌, ==_iff,
  if◌then◌else◌, Bool-cases, arith, set_at,
}
use cannet.ThreadPool.{
  Phase, starting, checking, testing, asleep, ended, holding, ThreadPool, add_task, stop, check,
  run_task, Step, adds, stops, begins, checks, waits, wakes, runs, Reach, here, next,
}

-- In waitAndPop.
abbrev pub IsWaiting : Phase → Type 0
IsWaiting ph = (ph ≡ testing) ⊎ (ph ≡ asleep)

record Stuck (i : ℕ) (taken : List (Option ℕ)) (p : ThreadPool) : Type 0 where
  locked : p.head_locked ≡ true
  waiting : IsWaiting (p.worker i)
  same : p.taken ≡ taken

-- Another thread moves, or this one to where it waits.
IsWaiting-set_at :
    (i j : ℕ) (ph ph' : Phase) (worker : ℕ → Phase)
    → worker j ≡ ph
    → (IsWaiting ph → IsWaiting ph')
    → IsWaiting (worker i)
    → IsWaiting (set_at j ph' worker i)
IsWaiting-set_at i j ph ph' worker e keeps h = elim (Bool-cases (i == j)) [
  | inl same ↦
      let here : worker i ≡ ph = ap worker ((==_iff i j).0 same) ∙ e in
      rw same (keeps (rw (← here) h))
  | inr other ↦ rw other h
]

Step-Stuck :
    (i : ℕ) (taken : List (Option ℕ)) {p q : ThreadPool}
    → Stuck i taken p
    → Step p q
    → Stuck i taken q
unfolding add_task check run_task
Step-Stuck i taken s (adds task) = record { locked = s.locked; waiting = s.waiting; same = s.same }
Step-Stuck i taken {p} s stops =
    rw (stop_lem p) (record { locked = refl; waiting = s.waiting; same = s.same })
Step-Stuck i taken {p} s (begins j e) = record {
  locked = s.locked;
  waiting = IsWaiting-set_at i j starting checking p.worker e (λ h. ground arith) s.waiting;
  same = s.same;
}
Step-Stuck i taken {p} s (checks j e) = record {
  locked = s.locked;
  waiting =
      IsWaiting-set_at i j checking (if p.running then testing else ended) p.worker e
        (λ h. ground arith) s.waiting;
  same = s.same;
}
Step-Stuck i taken s (waits j p' e unlocked r) = absurd (let no : ⊥ = cc (s.locked) in no)
Step-Stuck i taken {p} s (wakes j e) = record {
  locked = s.locked;
  waiting = IsWaiting-set_at i j asleep testing p.worker e (λ h. inl refl) s.waiting;
  same = s.same;
}
Step-Stuck i taken {p} s (runs j none e) = record {
  locked = s.locked;
  waiting = IsWaiting-set_at i j (holding none) checking p.worker e (λ h. ground arith) s.waiting;
  same = s.same;
}
Step-Stuck i taken {p} s (runs j (some t) e) = record {
  locked = s.locked;
  waiting =
      IsWaiting-set_at i j (holding (some t)) checking p.worker e (λ h. ground arith) s.waiting;
  same = s.same;
}

Reach-Stuck :
    (i : ℕ) (taken : List (Option ℕ)) {p q : ThreadPool}
    → Stuck i taken p
    → Reach p q
    → Stuck i taken q
Reach-Stuck i taken s here = s
Reach-Stuck i taken s (next r st) = Step-Stuck i taken (Reach-Stuck i taken s r) st

-- Once `stop` is called no task is taken any more, whatever is added, and a thread that waits for a task
-- then waits for ever: it never comes to its end, on which the destructor of the pool would wait.
pub stop_hangs :
    (i : ℕ) (p q : ThreadPool)
    → IsWaiting (p.worker i)
    → Reach (stop p) q
    → IsWaiting (q.worker i) × (q.worker i ≢ ended) × (q.taken ≡ p.taken)
stop_hangs i p q h r =
    let start : Stuck i p.taken (stop p) =
      rw (stop_lem p) (record { locked = refl; waiting = h; same = refl }) in
    let s = Reach-Stuck i p.taken start r in (s.waiting, λ e. ground (arith, s.waiting), s.same)
