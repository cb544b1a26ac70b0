-- ===== src/EventLoopThread/Handing.antt =====
-- What startLoop answers.
use cannet.Common.{ℕ, ◌≡◌, ◌≢◌, refl, sym, subst, Option, none, some}
use cannet.EventLoopThread.{
  EventLoopThread, Starter, before, testing, asleep, reading, returned, Runner, unborn,
  initialising, looping, ended, create, test, notify, publish, Step, starts, tests, wakes,
  publishes, ends, returns, Reach, here, next,
}

-- The starter while the loop is up: it has not got anything but the loop, and does not sleep.
abbrev pub Served : ℕ → Starter → Type 0
Served id asleep = ⊥
Served id before = ⊥
Served id (returned loop) = loop ≡ some id
Served id _ = Unit

-- The starter before the loop is up.
abbrev pub IsWaiting : Starter → Type 0
IsWaiting testing = Unit
IsWaiting asleep = Unit
IsWaiting _ = ⊥

abbrev Agrees : ℕ → Runner → Option ℕ → Starter → Type 0
Agrees id unborn loop s = (loop ≡ none) × (s ≡ before)
Agrees id initialising loop s = (loop ≡ none) × IsWaiting s
Agrees id looping loop s = (loop ≡ some id) × Served id s
Agrees id ended loop s = (loop ≡ none) × (s ≢ before)

Inv : ℕ → EventLoopThread → Type 0
Inv id t = Agrees id t.runner t.loop t.starter

started_at :
    (id : ℕ) (r : Runner) (loop : Option ℕ) (s : Starter)
    → Agrees id r loop s
    → s ≡ before
    → loop ≡ none
started_at id unborn loop s a e = a.0
started_at id initialising loop s a e = a.0
started_at id looping loop s a e = absurd (subst (Served id) e a.1)
started_at id ended loop s a e = a.0

tested :
    (id : ℕ) (r : Runner) (loop : Option ℕ) (s : Starter)
    → Agrees id r loop s
    → s ≡ testing
    → Agrees id r loop (test loop)
unfolding test
tested id unborn loop s a e = absurd (let no : ⊥ = cc (a.1, e) in no)
tested id initialising loop s a e = rw a.0 (refl, tt)
tested id looping loop s a e = rw a.0 (refl, tt)
tested id ended loop s a e = rw a.0 (refl, λ h. cc h)

woken :
    (id : ℕ) (r : Runner) (loop : Option ℕ) (s : Starter)
    → Agrees id r loop s
    → s ≡ asleep
    → Agrees id r loop testing
woken id unborn loop s a e = absurd (let no : ⊥ = cc (a.1, e) in no)
woken id initialising loop s a e = (a.0, tt)
woken id looping loop s a e = (a.0, tt)
woken id ended loop s a e = (a.0, λ h. cc h)

read :
    (id : ℕ) (r : Runner) (loop : Option ℕ) (s : Starter)
    → Agrees id r loop s
    → s ≡ reading
    → Agrees id r loop (returned loop)
read id unborn loop s a e = absurd (let no : ⊥ = cc (a.1, e) in no)
read id initialising loop s a e = absurd (subst IsWaiting e a.1)
read id looping loop s a e = (a.0, a.0)
read id ended loop s a e = (a.0, λ h. cc h)

notified : (id : ℕ) (s : Starter) → IsWaiting s → Served id (notify s)
unfolding notify
notified id testing w = tt
notified id asleep w = tt
notified id before w = w
notified id reading w = tt
notified id (returned loop) w = absurd w

ended_at : (id : ℕ) (s : Starter) → Served id s → s ≢ before
ended_at id s h e = subst (Served id) e h

Step-Inv : (id : ℕ) {t u : EventLoopThread} → Inv id t → Step id t u → Inv id u
unfolding Inv publish
Step-Inv id {t} v (starts e) = (started_at id t.runner t.loop t.starter v e, tt)
Step-Inv id {t} v (tests e) = tested id t.runner t.loop t.starter v e
Step-Inv id {t} v (wakes e) = woken id t.runner t.loop t.starter v e
Step-Inv id {t} v (publishes e) =
    (refl, notified id t.starter (subst (λ r. Agrees id r t.loop t.starter) e v).1)
Step-Inv id {t} v (ends e) =
    (refl, ended_at id t.starter (subst (λ r. Agrees id r t.loop t.starter) e v).1)
Step-Inv id {t} v (returns e) = read id t.runner t.loop t.starter v e

Reach-Inv : (id : ℕ) {t u : EventLoopThread} → Inv id t → Reach id t u → Inv id u
Reach-Inv id v here = v
Reach-Inv id v (next r st) = Step-Inv id (Reach-Inv id v r) st

-- As long as the new thread is in its loop: `loop_` is that loop, startLoop does not sleep, and if it
-- has returned, it has returned that loop.
pub start_loop-Served :
    (id : ℕ) (t : EventLoopThread)
    → Reach id create t
    → t.runner ≡ looping
    → (t.loop ≡ some id) × Served id t.starter
unfolding Inv create
start_loop-Served id t r e =
    subst (λ ru. Agrees id ru t.loop t.starter) e (Reach-Inv id (refl, refl) r)

record Late (t : EventLoopThread) : Type 0 where
  over : t.runner ≡ ended
  no_loop : t.loop ≡ none
  waiting : IsWaiting t.starter

Step-Late : (id : ℕ) {t u : EventLoopThread} → Late t → Step id t u → Late u
unfolding publish test
Step-Late id {t} l (starts e) = absurd (subst IsWaiting e l.waiting)
Step-Late id {t} l (tests e) = record {
  over = l.over;
  no_loop = l.no_loop;
  waiting = subst (λ o. IsWaiting (test o)) (sym l.no_loop) tt;
}
Step-Late id {t} l (wakes e) = record { over = l.over; no_loop = l.no_loop; waiting = tt }
Step-Late id {t} l (publishes e) = absurd (let no : ⊥ = cc (l.over, e) in no)
Step-Late id {t} l (ends e) = absurd (let no : ⊥ = cc (l.over, e) in no)
Step-Late id {t} l (returns e) = absurd (subst IsWaiting e l.waiting)

Reach-Late : (id : ℕ) {t u : EventLoopThread} → Late t → Reach id t u → Late u
Reach-Late id l here = l
Reach-Late id l (next r st) = Step-Late id (Reach-Late id l r) st

-- A loop that ends before startLoop has looked: startLoop waits for ever.
pub ended_first_hangs :
    (id : ℕ) (t u : EventLoopThread)
    → Reach id create t
    → t.runner ≡ ended
    → IsWaiting t.starter
    → Reach id t u
    → IsWaiting u.starter × (u.loop ≡ none)
unfolding Inv create
ended_first_hangs id t u r e w s =
    let v = subst (λ ru. Agrees id ru t.loop t.starter) e (Reach-Inv id (refl, refl) r) in
    let l = Reach-Late id (record { over = e; no_loop = v.0; waiting = w }) s in
    (l.waiting, l.no_loop)
