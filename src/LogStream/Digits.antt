-- ===== src/LogStream/Digits.antt =====
-- The digit loops of base/LogStream.cpp against the value of a numeral.
use native.Mathlib.Nat.{pow-suc}
use mathlib.Core.List.{reverse-cons}
use cannet.Common.{
  ℕ, zero, suc, ◌+◌, ◌-◌, ◌*◌, ◌/◌, ◌%◌, ◌^◌, ◌≤◌, ◌<◌, ◌≡◌, ◌≢◌, refl, ◌⊎◌, inl, inr, Option, none,
  some, List, [], ◌∷◌, ◌++◌, reverse, arith, ℤ, pos, negsuc, neg, abs, ◌==◌, if◌then◌else◌, ◌>>=◌,
  Returns, Returns-bind, ==_iff, Bool-cases, length,
}
use cannet.LogStream.{zero_char, quot_ten, rem_ten, convert_loop}

abbrev pub IsDigit : ℕ → Type 0
IsDigit c = (b'0' ≤ c) × (c ≤ b'9')

abbrev pub All {ℓ} : {A : Type ℓ} → (A → Type 0) → List A → Type 0
All P [] = Unit
All P (x ∷ xs) = P x × All P xs

All-append {ℓ} :
    {A : Type ℓ} (P : A → Type 0) (xs ys : List A) → All P xs → All P ys → All P (xs ++ ys)
All-append P [] ys hx hy = hy
All-append P (x ∷ xs) ys hx hy = (hx.0, All-append P xs ys hx.1 hy)

pub All-reverse {ℓ} : {A : Type ℓ} (P : A → Type 0) (xs : List A) → All P xs → All P (reverse xs)
All-reverse P [] h = tt
All-reverse P (x ∷ xs) h =
    rw (reverse-cons x xs) (All-append P (reverse xs) (x ∷ []) (All-reverse P xs h.1) (h.0, tt))

-- The number that decimal digits spell, most significant first.
abbrev pub value : ℕ → List ℕ → ℕ
value acc [] = acc
value acc (c ∷ rest) = value (acc * 10 + (c - b'0')) rest

-- Least significant first.
abbrev pub low_value : List ℕ → ℕ
low_value [] = 0
low_value (c ∷ rest) = (c - b'0') + 10 * low_value rest

value-append :
    (xs : List ℕ) (c acc : ℕ) → value acc (xs ++ (c ∷ [])) ≡ value acc xs * 10 + (c - b'0')
value-append [] c acc = refl
value-append (x ∷ xs) c acc = value-append xs c (acc * 10 + (x - b'0'))

pub value-reverse : (xs : List ℕ) → value 0 (reverse xs) ≡ low_value xs
value-reverse [] = refl
value-reverse (x ∷ xs) =
    rw (reverse-cons x xs) (omega (arith, value-append (reverse xs) x 0, value-reverse xs))

zero_char-pos : (d : ℕ) → d < 10 → zero_char (pos d) ≡ b'0' + d
unfolding zero_char
zero_char-pos zero h = refl
zero_char-pos (suc zero) h = refl
zero_char-pos (suc (suc zero)) h = refl
zero_char-pos (suc (suc (suc zero))) h = refl
zero_char-pos (suc (suc (suc (suc zero)))) h = refl
zero_char-pos (suc (suc (suc (suc (suc zero))))) h = refl
zero_char-pos (suc (suc (suc (suc (suc (suc zero)))))) h = refl
zero_char-pos (suc (suc (suc (suc (suc (suc (suc zero))))))) h = refl
zero_char-pos (suc (suc (suc (suc (suc (suc (suc (suc zero)))))))) h = refl
zero_char-pos (suc (suc (suc (suc (suc (suc (suc (suc (suc zero))))))))) h = refl
zero_char-pos (suc (suc (suc (suc (suc (suc (suc (suc (suc (suc n)))))))))) h = absurd (omega arith)

zero_char-neg : (d : ℕ) → d < 10 → zero_char (neg d) ≡ b'0' + d
unfolding zero_char
zero_char-neg zero h = refl
zero_char-neg (suc zero) h = refl
zero_char-neg (suc (suc zero)) h = refl
zero_char-neg (suc (suc (suc zero))) h = refl
zero_char-neg (suc (suc (suc (suc zero)))) h = refl
zero_char-neg (suc (suc (suc (suc (suc zero))))) h = refl
zero_char-neg (suc (suc (suc (suc (suc (suc zero)))))) h = refl
zero_char-neg (suc (suc (suc (suc (suc (suc (suc zero))))))) h = refl
zero_char-neg (suc (suc (suc (suc (suc (suc (suc (suc zero)))))))) h = refl
zero_char-neg (suc (suc (suc (suc (suc (suc (suc (suc (suc zero))))))))) h = refl
zero_char-neg (suc (suc (suc (suc (suc (suc (suc (suc (suc (suc n)))))))))) h = absurd (omega arith)

-- The loop of `convert` on the digits of a number without its sign.
abbrev low_digits : ℕ → ℕ → Option (List ℕ)
low_digits zero m = none
low_digits (suc fuel) m =
    let more = low_digits fuel (m / 10) >>= λ rest. some ((b'0' + m % 10) ∷ rest) in
    if m / 10 == 0 then some ((b'0' + m % 10) ∷ []) else more

abs-neg : (n : ℕ) → abs (neg n) ≡ n
abs-neg zero = refl
abs-neg (suc n) = refl

abs-quot_ten : (i : ℤ) → abs (quot_ten i) ≡ abs i / 10
abs-quot_ten (pos n) = refl
abs-quot_ten (negsuc n) = abs-neg (suc n / 10)

zero_char-rem_ten : (i : ℤ) → zero_char (rem_ten i) ≡ b'0' + abs i % 10
zero_char-rem_ten (pos n) = zero_char-pos (n % 10) (omega arith)
zero_char-rem_ten (negsuc n) = zero_char-neg (suc n % 10) (omega arith)

convert_loop-abs : (fuel : ℕ) (i : ℤ) → convert_loop fuel i ≡ low_digits fuel (abs i)
unfolding convert_loop
convert_loop-abs zero i = refl
convert_loop-abs (suc fuel) i =
    rw (convert_loop-abs fuel (quot_ten i), abs-quot_ten i, zero_char-rem_ten i)

-- The digits of a number, least significant first: no more than the fuel, at least one, and none
-- that is a leading zero.
abbrev pub LowDigits : ℕ → ℕ → List ℕ → Type 0
LowDigits fuel m cs =
    (low_value cs ≡ m)
    × All IsDigit cs
    × (length cs ≤ fuel)
    × (1 ≤ length cs)
    × ((length cs ≡ 1) ⊎ (10 ^ (length cs - 1) ≤ m))

fuel-pos : (fuel m : ℕ) → m < 10 ^ suc fuel → m / 10 ≢ 0 → 0 < fuel
fuel-pos zero m h g = absurd (g (omega arith))
fuel-pos (suc fuel) m h g = omega arith

pow-pred : (n : ℕ) → 1 ≤ n → 10 ^ n ≡ 10 * 10 ^ (n - 1)
pow-pred zero h = absurd (omega arith)
pow-pred (suc n) h = let e : suc n - 1 ≡ n = omega arith in rw e (omega (arith, pow-suc 10 n))

LowDigits-cons :
    (fuel m : ℕ) (cs : List ℕ)
    → m / 10 ≢ 0
    → LowDigits fuel (m / 10) cs
    → LowDigits (suc fuel) m ((b'0' + m % 10) ∷ cs)
LowDigits-cons fuel m cs more (v, a, u, l, c) =
    (omega arith, ((omega arith, omega arith), a), omega arith, omega arith, inr (leading c))
  where
    e : suc (length cs) - 1 ≡ length cs
    e = omega arith

    leading : (length cs ≡ 1) ⊎ (10 ^ (length cs - 1) ≤ m / 10) → 10 ^ (suc (length cs) - 1) ≤ m
    leading (inl one) = rw (e, one) (omega arith)
    leading (inr high) = rw e (omega (arith, pow-pred (length cs)))

low_digits-LowDigits :
    (fuel m : ℕ) → m < 10 ^ suc fuel → Returns (low_digits (suc fuel) m) (LowDigits (suc fuel) m)
low_digits-LowDigits zero m h = let e : m / 10 ≡ 0 = omega arith in rw e (omega arith)
low_digits-LowDigits (suc fuel) m h = elim (Bool-cases (m / 10 == 0)) [
  | inl e ↦ rw e (omega (arith, (==_iff (m / 10) 0).0 e))
  | inr e ↦ rw e (
      Returns-bind (LowDigits (suc fuel) (m / 10)) (LowDigits (suc (suc fuel)) m)
        (low_digits (suc fuel) (m / 10)) _
        (low_digits-LowDigits fuel (m / 10) (omega (arith, pow-suc 10 (suc fuel))))
        λ cs p. LowDigits-cons (suc fuel) m cs (ground arith) p)
]

-- The loop of `convert` ends within its fuel, with the digits of the value's size.
pub convert_loop-LowDigits :
    (fuel : ℕ) (i : ℤ)
    → abs i < 10 ^ suc fuel
    → Returns (convert_loop (suc fuel) i) (LowDigits (suc fuel) (abs i))
convert_loop-LowDigits fuel i h =
    rw (convert_loop-abs (suc fuel) i) (low_digits-LowDigits fuel (abs i) h)
