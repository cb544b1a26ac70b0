-- ===== src/TimerManager/Order.antt =====
-- The order of the timer queue of net/TimerManager.h.
use cannet.Common.{
  ℕ, ◌+◌, ◌≤◌, ◌<◌, ◌≡◌, refl, ◌⊎◌, inl, inr, true, false, List, [], ◌∷◌, arith, Bool-cases, ◌==◌,
}
use cannet.TimerManager.{Timer, timer_cmp, push}

-- A timer that runs no later than another: by expiration, and then by sequence number.
abbrev pub Before : (ℕ → Timer) → ℕ → ℕ → Type 0
Before timer a b =
    ((timer a).expiration < (timer b).expiration)
    ⊎ (((timer a).expiration ≡ (timer b).expiration) × (a ≤ b))

abbrev pub AllAfter : (ℕ → Timer) → ℕ → List ℕ → Type 0
AllAfter timer a [] = Unit
AllAfter timer a (b ∷ rest) = Before timer a b × AllAfter timer a rest

abbrev pub IsSorted : (ℕ → Timer) → List ℕ → Type 0
IsSorted timer [] = Unit
IsSorted timer (a ∷ rest) = AllAfter timer a rest × IsSorted timer rest

timer_cmp-true : (timer : ℕ → Timer) (a b : ℕ) → timer_cmp timer b a ≡ true → Before timer a b
unfolding timer_cmp
timer_cmp-true timer a b h = ground arith

timer_cmp-false : (timer : ℕ → Timer) (a b : ℕ) → timer_cmp timer b a ≡ false → Before timer b a
unfolding timer_cmp
timer_cmp-false timer a b h = ground arith

Before-trans :
    (timer : ℕ → Timer) (a b c : ℕ) → Before timer a b → Before timer b c → Before timer a c
Before-trans timer a b c h g = ground arith

AllAfter-trans :
    (timer : ℕ → Timer) (a b : ℕ) (q : List ℕ)
    → Before timer a b
    → AllAfter timer b q
    → AllAfter timer a q
AllAfter-trans timer a b [] h g = tt
AllAfter-trans timer a b (c ∷ q) h g =
    (Before-trans timer a b c h g.0, AllAfter-trans timer a b q h g.1)

AllAfter-push :
    (timer : ℕ → Timer) (a b : ℕ) (q : List ℕ)
    → Before timer b a
    → AllAfter timer b q
    → AllAfter timer b (push timer a q)
unfolding push
AllAfter-push timer a b [] h g = (h, tt)
AllAfter-push timer a b (c ∷ q) h g = elim (Bool-cases (timer_cmp timer c a)) [
  | inl e ↦ rw e (h, g)
  | inr e ↦ rw e (g.0, AllAfter-push timer a b q h g.1)
]

-- `push` keeps the queue sorted.
pub push-IsSorted :
    (timer : ℕ → Timer) (a : ℕ) (q : List ℕ) → IsSorted timer q → IsSorted timer (push timer a q)
unfolding push
push-IsSorted timer a [] s = (tt, tt)
push-IsSorted timer a (b ∷ q) s = elim (Bool-cases (timer_cmp timer b a)) [
  | inl e ↦ let h = timer_cmp-true timer a b e in rw e ((h, AllAfter-trans timer a b q h s.0), s)
  | inr e ↦
      rw e
        (AllAfter-push timer a b q (timer_cmp-false timer a b e) s.0, push-IsSorted timer a q s.1)
]

-- How often a timer stands in the queue.
abbrev pub count : ℕ → List ℕ → ℕ
count i [] = 0
count i (j ∷ q) = elim (i == j) [ true ↦ count i q + 1 | false ↦ count i q ]

pub count-push :
    (timer : ℕ → Timer) (i a : ℕ) (q : List ℕ) → count i (push timer a q) ≡ count i (a ∷ q)
unfolding push
count-push timer i a [] = refl
count-push timer i a (b ∷ q) = ground (arith, count-push timer i a q)
