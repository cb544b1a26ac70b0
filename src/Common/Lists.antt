-- ===== src/Common/Lists.antt =====
-- Lists measured and indexed by native numbers, under the library's names, and memory copies.
use Prim.Native.Nat.{ℕ, zero, suc, ◌+◌, ◌-◌, ◌≤◌, ◌<◌, min}
use mathlib.Core.Path.{◌≡◌, refl, ap, ◌∙◌}
use mathlib.Core.Option.{Option, none, some}
use mathlib.Core.List.{List, [], ◌∷◌, ◌++◌}
use native.Mathlib.Omega.{arith}

module _ {ℓ} {A : Type ℓ} where
  abbrev pub length : List A → ℕ
  length [] = 0
  length (x ∷ xs) = suc (length xs)

  abbrev pub get_elem? : List A → ℕ → Option A
  get_elem? [] i = none
  get_elem? (x ∷ xs) zero = some x
  get_elem? (x ∷ xs) (suc i) = get_elem? xs i

  abbrev pub take : ℕ → List A → List A
  take zero xs = []
  take (suc n) [] = []
  take (suc n) (x ∷ xs) = x ∷ take n xs

  abbrev pub drop : ℕ → List A → List A
  drop zero xs = xs
  drop (suc n) [] = []
  drop (suc n) (x ∷ xs) = drop n xs

  abbrev pub replicate : ℕ → A → List A
  replicate zero a = []
  replicate (suc n) a = a ∷ replicate n a

  -- Copies the second list over the first from an index on; what lies past the end is not written.
  abbrev pub write_at : List A → ℕ → List A → List A
  write_at [] i src = []
  write_at (x ∷ xs) zero [] = x ∷ xs
  write_at (x ∷ xs) zero (s ∷ src) = s ∷ write_at xs zero src
  write_at (x ∷ xs) (suc i) src = x ∷ write_at xs i src

  -- The `n` elements from index `i` on.
  abbrev pub slice : List A → ℕ → ℕ → List A
  slice xs i n = take n (drop i xs)

module _ {ℓ} {A : Type ℓ} where
  pub length-append : (xs ys : List A) → length (xs ++ ys) ≡ length xs + length ys
  length-append [] ys = omega arith
  length-append (x ∷ xs) ys = omega (arith, length-append xs ys)

  pub length-take : (n : ℕ) (xs : List A) → length (take n xs) ≡ min n (length xs)
  length-take zero xs = omega arith
  length-take (suc n) [] = omega arith
  length-take (suc n) (x ∷ xs) = omega (arith, length-take n xs)

  pub length-drop : (n : ℕ) (xs : List A) → length (drop n xs) ≡ length xs - n
  length-drop zero xs = omega arith
  length-drop (suc n) [] = omega arith
  length-drop (suc n) (x ∷ xs) = omega (arith, length-drop n xs)

  pub length-replicate : (n : ℕ) (a : A) → length (replicate n a) ≡ n
  length-replicate zero a = refl
  length-replicate (suc n) a = ap suc (length-replicate n a)

  pub take-replicate : (m n : ℕ) (a : A) → m ≤ n → take m (replicate n a) ≡ replicate m a
  take-replicate zero n a h = refl
  take-replicate (suc m) zero a h = absurd (omega (arith, h))
  take-replicate (suc m) (suc n) a h = ap (λ xs. a ∷ xs) (take-replicate m n a (omega (arith, h)))

  pub length-write_at :
      (xs : List A) (i : ℕ) (src : List A) → length (write_at xs i src) ≡ length xs
  length-write_at [] i src = refl
  length-write_at (x ∷ xs) zero [] = refl
  length-write_at (x ∷ xs) zero (s ∷ src) = ap suc (length-write_at xs zero src)
  length-write_at (x ∷ xs) (suc i) src = ap suc (length-write_at xs i src)

  pub length-slice : (xs : List A) (i n : ℕ) → i + n ≤ length xs → length (slice xs i n) ≡ n
  length-slice xs i n h = omega (arith, length-take n (drop i xs), length-drop i xs)

  pub length-zero : (xs : List A) → length xs ≡ 0 → xs ≡ []
  length-zero [] e = refl
  length-zero (x ∷ xs) e = absurd (omega arith)

  pub take-append-drop : (n : ℕ) (xs : List A) → take n xs ++ drop n xs ≡ xs
  take-append-drop zero xs = refl
  take-append-drop (suc n) [] = refl
  take-append-drop (suc n) (x ∷ xs) = ap (◌∷◌ x) (take-append-drop n xs)

  pub take-all : (n : ℕ) (xs : List A) → length xs ≤ n → take n xs ≡ xs
  take-all zero [] h = refl
  take-all zero (x ∷ xs) h = absurd (omega arith)
  take-all (suc n) [] h = refl
  take-all (suc n) (x ∷ xs) h = ap (◌∷◌ x) (take-all n xs (omega arith))

  pub drop-all : (n : ℕ) (xs : List A) → length xs ≤ n → drop n xs ≡ []
  drop-all zero [] h = refl
  drop-all zero (x ∷ xs) h = absurd (omega arith)
  drop-all (suc n) [] h = refl
  drop-all (suc n) (x ∷ xs) h = drop-all n xs (omega arith)

  pub take-append : (n : ℕ) (xs ys : List A) → n ≡ length xs → take n (xs ++ ys) ≡ xs
  take-append zero [] ys e = refl
  take-append zero (x ∷ xs) ys e = absurd (omega arith)
  take-append (suc n) [] ys e = absurd (omega arith)
  take-append (suc n) (x ∷ xs) ys e = ap (◌∷◌ x) (take-append n xs ys (omega arith))

  pub drop-append : (n : ℕ) (xs ys : List A) → n ≡ length xs → drop n (xs ++ ys) ≡ ys
  drop-append zero [] ys e = refl
  drop-append zero (x ∷ xs) ys e = absurd (omega arith)
  drop-append (suc n) [] ys e = absurd (omega arith)
  drop-append (suc n) (x ∷ xs) ys e = drop-append n xs ys (omega arith)

  pub take-append_le : (n : ℕ) (xs ys : List A) → n ≤ length xs → take n (xs ++ ys) ≡ take n xs
  take-append_le zero xs ys h = refl
  take-append_le (suc n) [] ys h = absurd (omega arith)
  take-append_le (suc n) (x ∷ xs) ys h = ap (◌∷◌ x) (take-append_le n xs ys (omega arith))

  -- What lies behind a window does not matter to it.
  pub slice-append :
      (xs ys : List A) (i n : ℕ) → i + n ≤ length xs → slice (xs ++ ys) i n ≡ slice xs i n
  slice-append xs ys zero n h = take-append_le n xs ys (omega arith)
  slice-append [] ys (suc i) n h = absurd (omega arith)
  slice-append (x ∷ xs) ys (suc i) n h = slice-append xs ys i n (omega arith)

  pub slice-take : (xs : List A) (m i n : ℕ) → i + n ≤ m → slice (take m xs) i n ≡ slice xs i n
  slice-take xs zero zero zero h = refl
  slice-take xs zero zero (suc n) h = absurd (omega arith)
  slice-take xs zero (suc i) n h = absurd (omega arith)
  slice-take [] (suc m) i n h = refl
  slice-take (x ∷ xs) (suc m) zero zero h = refl
  slice-take (x ∷ xs) (suc m) zero (suc n) h = ap (◌∷◌ x) (slice-take xs m zero n (omega arith))
  slice-take (x ∷ xs) (suc m) (suc i) n h = slice-take xs m i n (omega arith)

  -- Taking a window apart in the middle.
  pub drop-take : (xs : List A) (m n k : ℕ) → k ≡ m + n → drop m (take k xs) ≡ take n (drop m xs)
  drop-take xs zero n k e = let e' : k ≡ n = omega arith in ap (λ j. take j xs) e'
  drop-take xs (suc m) n zero e = absurd (omega arith)
  drop-take [] (suc m) zero (suc k) e = refl
  drop-take [] (suc m) (suc n) (suc k) e = refl
  drop-take (x ∷ xs) (suc m) n (suc k) e = drop-take xs m n k (omega arith)

  pub drop-drop : (xs : List A) (i m j : ℕ) → j ≡ i + m → drop m (drop i xs) ≡ drop j xs
  drop-drop xs zero m j e = let e' : m ≡ j = omega arith in ap (λ k. drop k xs) e'
  drop-drop xs (suc i) m zero e = absurd (omega arith)
  drop-drop [] (suc i) zero (suc j) e = refl
  drop-drop [] (suc i) (suc m) (suc j) e = refl
  drop-drop (x ∷ xs) (suc i) m (suc j) e = drop-drop xs i m j (omega arith)

  pub drop-slice :
      (xs : List A) (i m n j k : ℕ) → j ≡ i + m → k ≡ m + n → drop m (slice xs i k) ≡ slice xs j n
  drop-slice xs i m n j k e f = drop-take (drop i xs) m n k f ∙ ap (take n) (drop-drop xs i m j e)

  pub take-slice : (xs : List A) (i m k : ℕ) → m ≤ k → take m (slice xs i k) ≡ slice xs i m
  take-slice xs i m k h = slice-take (drop i xs) k zero m (omega arith)

  -- Of a copy that runs over the end, the front is written.
  pub write_at-take :
      (xs src : List A) (i n : ℕ)
      → length xs ≡ i + n
      → write_at xs i src ≡ write_at xs i (take n src)
  write_at-take [] src i n e = refl
  write_at-take (x ∷ xs) src zero zero e = absurd (omega arith)
  write_at-take (x ∷ xs) [] zero (suc n) e = refl
  write_at-take (x ∷ xs) (s ∷ src) zero (suc n) e =
      ap (◌∷◌ s) (write_at-take xs src zero n (omega arith))
  write_at-take (x ∷ xs) src (suc i) n e = ap (◌∷◌ x) (write_at-take xs src i n (omega arith))

  take-write_at :
      (xs src : List A) → length src ≤ length xs → take (length src) (write_at xs zero src) ≡ src
  take-write_at xs [] h = refl
  take-write_at [] (s ∷ src) h = absurd (omega arith)
  take-write_at (x ∷ xs) (s ∷ src) h = ap (◌∷◌ s) (take-write_at xs src (omega arith))

  take-write_at_end :
      (xs src : List A) (n len : ℕ)
      → len ≡ n + length src
      → len ≤ length xs
      → take len (write_at xs n src) ≡ take n xs ++ src
  take-write_at_end xs src zero len e h =
      let e' : len ≡ length src = omega arith in
      ap (λ k. take k (write_at xs zero src)) e' ∙ take-write_at xs src (omega arith)
  take-write_at_end xs src (suc n) zero e h = absurd (omega arith)
  take-write_at_end [] src (suc n) (suc len) e h = absurd (omega arith)
  take-write_at_end (x ∷ xs) src (suc n) (suc len) e h =
      ap (◌∷◌ x) (take-write_at_end xs src n len (omega arith) (omega arith))

  -- A copy that starts where a window ends extends the window by what was copied.
  pub slice-write_at_end :
      (xs src : List A) (i n pos len : ℕ)
      → pos ≡ i + n
      → len ≡ n + length src
      → i + len ≤ length xs
      → slice (write_at xs pos src) i len ≡ slice xs i n ++ src
  slice-write_at_end xs src zero n pos len e f h =
      let e' : pos ≡ n = omega arith in
      ap (λ k. take len (write_at xs k src)) e' ∙ take-write_at_end xs src n len f (omega arith)
  slice-write_at_end [] src (suc i) n pos len e f h = absurd (omega arith)
  slice-write_at_end (x ∷ xs) src (suc i) n zero len e f h = absurd (omega arith)
  slice-write_at_end (x ∷ xs) src (suc i) n (suc pos) len e f h =
      slice-write_at_end xs src i n pos len (omega arith) f (omega arith)

  take-write_at_front :
      (xs src : List A) (n pos len : ℕ)
      → pos ≡ length src
      → len ≡ length src + n
      → len ≤ length xs
      → take len (write_at xs zero src) ≡ src ++ slice xs pos n
  take-write_at_front xs [] n zero len e f h = let f' : len ≡ n = omega arith in front xs f'
    where
      front : (ys : List A) → len ≡ n → take len (write_at ys zero []) ≡ take n ys
      front [] f' = ap (λ k. take k []) f'
      front (y ∷ ys) f' = ap (λ k. take k (y ∷ ys)) f'
  take-write_at_front xs [] n (suc pos) len e f h = absurd (omega arith)
  take-write_at_front xs (s ∷ src) n zero len e f h = absurd (omega arith)
  take-write_at_front xs (s ∷ src) n (suc pos) zero e f h = absurd (omega arith)
  take-write_at_front [] (s ∷ src) n (suc pos) (suc len) e f h = absurd (omega arith)
  take-write_at_front (x ∷ xs) (s ∷ src) n (suc pos) (suc len) e f h =
      ap (◌∷◌ s) (take-write_at_front xs src n pos len (omega arith) (omega arith) (omega arith))

  -- A copy that ends where a window starts extends the window at the front.
  pub slice-write_at_front :
      (xs src : List A) (i n pos len : ℕ)
      → pos ≡ i + length src
      → len ≡ length src + n
      → i + len ≤ length xs
      → slice (write_at xs i src) i len ≡ src ++ slice xs pos n
  slice-write_at_front xs src zero n pos len e f h =
      take-write_at_front xs src n pos len (omega arith) f (omega arith)
  slice-write_at_front [] src (suc i) n pos len e f h = absurd (omega arith)
  slice-write_at_front (x ∷ xs) src (suc i) n zero len e f h = absurd (omega arith)
  slice-write_at_front (x ∷ xs) src (suc i) n (suc pos) len e f h =
      slice-write_at_front xs src i n pos len (omega arith) f (omega arith)

  pub get_elem?_of_lt : (xs : List A) (i : ℕ) → i < length xs → (a : A) × (get_elem? xs i ≡ some a)
  get_elem?_of_lt [] i h = absurd (omega arith)
  get_elem?_of_lt (x ∷ xs) zero h = (x, refl)
  get_elem?_of_lt (x ∷ xs) (suc i) h = get_elem?_of_lt xs i (omega arith)

  take_nil : (n : ℕ) → ◌≡◌ {A = List A} [] (take n [])
  take_nil zero = refl
  take_nil (suc n) = refl

  pub take-add : (n m k : ℕ) (xs : List A) → k ≡ n + m → take k xs ≡ take n xs ++ slice xs n m
  take-add zero m k xs e = let same : k ≡ m = omega arith in rw same refl
  take-add (suc n) m zero xs e = absurd (omega arith)
  take-add (suc n) m (suc k) [] e = take_nil m
  take-add (suc n) m (suc k) (x ∷ xs) e = ap (◌∷◌ x) (take-add n m k xs (omega arith))
