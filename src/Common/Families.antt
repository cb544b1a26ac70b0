-- ===== src/Common/Families.antt =====
-- Functions of a number, as the states of many: one value given anew, and sums over the first of them.
use Prim.Native.Nat.{ℕ, zero, suc, ◌+◌, ◌≤◌, ◌<◌}
use mathlib.Core.Path.{◌≡◌, refl}
use native.Mathlib.Omega.{arith}
use native.Mathlib.Decide.{dec_lt}
use cannet.Common.Logic.{if◌then◌else◌, ◌==◌}

-- A value given anew at one place.
abbrev pub set_at {ℓ} : {A : Type ℓ} → ℕ → A → (ℕ → A) → ℕ → A
set_at i a f j = if j == i then a else f j

module _ {ℓ} {A : Type ℓ} (weight : A → ℕ) where
  abbrev pub total : ℕ → (ℕ → A) → ℕ
  total zero f = 0
  total (suc n) f = total n f + weight (f n)

  total-set_at_of_le : (n i : ℕ) (a : A) (f : ℕ → A) → n ≤ i → total n (set_at i a f) ≡ total n f
  total-set_at_of_le zero i a f h = refl
  total-set_at_of_le (suc n) i a f h = ground (arith, total-set_at_of_le n i a f)

  pub total-set_at :
      (n i : ℕ) (a : A) (f : ℕ → A)
      → i < n
      → total n (set_at i a f) + weight (f i) ≡ total n f + weight a
  total-set_at zero i a f h = absurd (omega arith)
  total-set_at (suc n) i a f h = elim (dec_lt i n) [
    | yes below ↦ ground (arith, total-set_at n i a f below)
    | no last ↦ ground (arith, total-set_at_of_le n i a f)
  ]

  pub total-eq-zero : (n : ℕ) (f : ℕ → A) → ((i : ℕ) → weight (f i) ≡ 0) → total n f ≡ 0
  total-eq-zero zero f h = refl
  total-eq-zero (suc n) f h = omega (arith, total-eq-zero n f h, h n)
