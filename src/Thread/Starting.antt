-- ===== src/Thread/Starting.antt =====
-- What the starter of a Thread can rely on.
use cannet.Common.{ℕ, ◌<◌, ◌≡◌, ◌≢◌, refl, ap, subst, sym, ◌∙◌, true, false, ℤ, pos}
use cannet.Latch.{
  Latch, Phase, outside, asleep, woken, passed, is_positive, pred, count_down, test_again, wake_one,
}
use cannet.Latch
use cannet.Latch.Passing.{Fits, Reach-Fits}
use cannet.Thread.{
  Thread, Runner, unborn, born, counting, running, finished, create, Step, starts, waits, retries,
  wakes, says_tid, counts, finishes, Reach, here, next,
}

-- What the count of the latch and the number are, by where the new thread stands.
abbrev pub Agrees : Runner → ℤ → ℕ → Type 0
Agrees unborn count tid = count ≡ pos 1
Agrees born count tid = count ≡ pos 1
Agrees counting count tid = (count ≡ pos 1) × (0 < tid)
Agrees running count tid = (count ≡ pos 0) × (0 < tid)
Agrees finished count tid = (count ≡ pos 0) × (0 < tid)

record Inv (t : Thread) : Type 0 where
  latch : Latch.Reach (pos 1) t.latch
  agrees : Agrees t.runner t.latch.count t.tid
  unstarted : t.started ≡ false → t.runner ≡ unborn

agrees_at : (t : Thread) (r : Runner) → Inv t → t.runner ≡ r → Agrees r t.latch.count t.tid
agrees_at t r v e = subst (λ r'. Agrees r' t.latch.count t.tid) e v.agrees

-- A thread that was made was started.
no_thread : (t : Thread) (r : Runner) → Inv t → t.runner ≡ r → r ≢ unborn → t.started ≢ false
no_thread t r v e h f = h (sym e ∙ v.unstarted f)

Step-Inv : {t u : Thread} → Inv t → Step t u → Inv u
unfolding test_again wake_one count_down
Step-Inv {t} v (starts e) = record {
  latch = v.latch;
  agrees = agrees_at t unborn v (v.unstarted e);
  unstarted = λ f. cc f;
}
Step-Inv {t} v (waits s e) = record {
  latch = Latch.later v.latch (Latch.waits 0 e);
  agrees = v.agrees;
  unstarted = v.unstarted;
}
Step-Inv {t} v (retries e) = record {
  latch = Latch.later v.latch (Latch.retries 0 e);
  agrees = v.agrees;
  unstarted = v.unstarted;
}
Step-Inv {t} v (wakes e) = record {
  latch = Latch.later v.latch (Latch.wakes 0 e);
  agrees = v.agrees;
  unstarted = v.unstarted;
}
Step-Inv {t} v (says_tid n h e) = record {
  latch = v.latch;
  agrees = (agrees_at t born v e, h);
  unstarted = λ f. absurd (no_thread t born v e (λ g. cc g) f);
}
Step-Inv {t} v (counts e) =
    let a = agrees_at t counting v e in
    record {
      latch = Latch.later v.latch Latch.counts;
      agrees = (ap pred a.0, a.1);
      unstarted = λ f. absurd (no_thread t counting v e (λ g. cc g) f);
    }
Step-Inv {t} v (finishes e) = record {
  latch = v.latch;
  agrees = agrees_at t running v e;
  unstarted = λ f. absurd (no_thread t running v e (λ g. cc g) f);
}

create-Inv : Inv create
unfolding create
create-Inv = record { latch = Latch.start; agrees = refl; unstarted = λ f. refl }

Reach-Inv : {t : Thread} → Reach t → Inv t
Reach-Inv here = create-Inv
Reach-Inv (next r st) = Step-Inv (Reach-Inv r) st

-- The new thread runs its function, or has.
abbrev pub IsUnderWay : Runner → Type 0
IsUnderWay running = Unit
IsUnderWay finished = Unit
IsUnderWay _ = ⊥

passed_by :
    (r : Runner) (count : ℤ) (tid : ℕ)
    → Agrees r count tid
    → is_positive count ≡ false
    → (0 < tid) × IsUnderWay r
passed_by unborn count tid a e = absurd (let no : ⊥ = cc (a, e) in no)
passed_by born count tid a e = absurd (let no : ⊥ = cc (a, e) in no)
passed_by counting count tid a e = absurd (let no : ⊥ = cc (a.0, e) in no)
passed_by running count tid a e = (a.1, tt)
passed_by finished count tid a e = (a.1, tt)

asleep_by :
    (r : Runner) (count : ℤ) (tid : ℕ)
    → Agrees r count tid
    → is_positive count ≡ true
    → IsUnderWay r
    → ⊥
asleep_by unborn count tid a e h = h
asleep_by born count tid a e h = h
asleep_by counting count tid a e h = h
asleep_by running count tid a e h = cc (a.0, e)
asleep_by finished count tid a e h = cc (a.0, e)

-- Whenever the starter is through the latch, the number of the new thread is above 0, as the assert
-- behind it says, and the new thread is in its function or past it.
pub start_waits :
    (t : Thread) → Reach t → t.latch.thread 0 ≡ passed → (0 < t.tid) × IsUnderWay t.runner
start_waits t r e =
    let v = Reach-Inv r in
    passed_by t.runner t.latch.count t.tid v.agrees
      (subst (Fits t.latch.count) e (Reach-Fits (pos 1) t.latch v.latch 0))

-- The starter does not sleep once the new thread is that far.
start_wakes : (t : Thread) → Reach t → IsUnderWay t.runner → t.latch.thread 0 ≢ asleep
start_wakes t r h e =
    let v = Reach-Inv r in
    asleep_by t.runner t.latch.count t.tid v.agrees
      (subst (Fits t.latch.count) e (Reach-Fits (pos 1) t.latch v.latch 0)) h
