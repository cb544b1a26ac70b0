-- ===== src/Latch/Passing.antt =====
-- No thread passes a latch early, and none sleeps on.
use cannet.Common.{
  ℕ, zero, suc, ◌≡◌, refl, sym, ◌∙◌, Bool, true, false, ℤ, pos, negsuc, ◌==◌, if◌then◌else◌,
}
use cannet.Latch.{
  Latch, Phase, outside, asleep, woken, passed, is_positive, pred, is_zero, create, test, wake,
  count_down, test_again, wake_one, waits, counts, retries, wakes, Reach, start, later,
}

-- One thread: if it has passed, the count is spent; if it sleeps, the count is not.
abbrev pub Fits : ℤ → Phase → Type 0
Fits count outside = Unit
Fits count woken = Unit
Fits count asleep = is_positive count ≡ true
Fits count passed = is_positive count ≡ false

test-Fits : (count : ℤ) → Fits count (test count)
unfolding test
test-Fits (pos zero) = refl
test-Fits (pos (suc n)) = refl
test-Fits (negsuc n) = refl

Fits-same : (a b : ℤ) (p : Phase) → is_positive a ≡ is_positive b → Fits a p → Fits b p
Fits-same a b outside e h = tt
Fits-same a b woken e h = tt
Fits-same a b asleep e h = sym e ∙ h
Fits-same a b passed e h = sym e ∙ h

spent-Fits : (p : Phase) → Fits (pos 1) p → Fits (pos 0) (wake p)
unfolding wake
spent-Fits outside h = tt
spent-Fits asleep h = tt
spent-Fits woken h = tt
spent-Fits passed h = refl

counted-Fits :
    (count : ℤ) (p : Phase)
    → Fits count p
    → Fits (pred count) (if is_zero (pred count) then wake p else p)
counted-Fits (pos zero) p h = Fits-same (pos 0) (negsuc 0) p refl h
counted-Fits (pos (suc zero)) p h = spent-Fits p h
counted-Fits (pos (suc (suc n))) p h = Fits-same (pos (suc (suc n))) (pos (suc n)) p refl h
counted-Fits (negsuc n) p h = Fits-same (negsuc n) (negsuc (suc n)) p refl h

if-Fits :
    (count : ℤ) (b : Bool) (p q : Phase)
    → Fits count p
    → Fits count q
    → Fits count (if b then p else q)
if-Fits count true p q h k = h
if-Fits count false p q h k = k

-- In every state that the latch can reach, with any number of threads and of calls: a thread that has
-- passed finds the count at 0 or below, and a thread sleeps only while the count is above 0, so that
-- the call that takes it to 0 leaves none asleep.
pub Reach-Fits : (count : ℤ) (l : Latch) → Reach count l → (i : ℕ) → Fits l.count (l.thread i)
unfolding create count_down test_again wake_one
Reach-Fits count _ start i = tt
Reach-Fits count _ (later {l} r (waits j e)) i =
    if-Fits l.count (i == j) (test l.count) (l.thread i) (test-Fits l.count)
      (Reach-Fits count l r i)
Reach-Fits count _ (later {l} r counts) i =
    counted-Fits l.count (l.thread i) (Reach-Fits count l r i)
Reach-Fits count _ (later {l} r (retries j e)) i =
    if-Fits l.count (i == j) (test l.count) (l.thread i) (test-Fits l.count)
      (Reach-Fits count l r i)
Reach-Fits count _ (later {l} r (wakes j e)) i =
    if-Fits l.count (i == j) woken (l.thread i) tt (Reach-Fits count l r i)
