-- ===== src/LogStream/Numbers.antt =====
-- What `convert` and `convertHex` of base/LogStream.cpp print.
use native.Mathlib.Nat.{pow-suc}
use mathlib.Core.List.{reverse-cons, reverse-append}
use cannet.Common.{
  ℕ, zero, suc, ◌+◌, ◌-◌, ◌*◌, ◌/◌, ◌%◌, ◌^◌, ◌≤◌, ◌<◌, ◌≡◌, refl, ◌∙◌, ◌⊎◌, inl, inr, List, [],
  ◌∷◌, ◌++◌, reverse, arith, ℤ, pos, negsuc, abs, ltb, ◌==◌, if◌then◌else◌, Returns, Returns-bind,
  Bool-cases, ==_iff, length, length-append,
}
use cannet.LogStream.{char_at, convert, convert_loop, convert_hex_loop, convert_hex, rounds}
use cannet.LogStream.Digits.{
  IsDigit, All, All-reverse, value, value-reverse, LowDigits, convert_loop-LowDigits,
}

abbrev pub sign : ℤ → List ℕ
sign (pos n) = []
sign (negsuc n) = b'-' ∷ []

-- The decimal numeral of an integer: its sign and the digits of its size, with no leading zero.
pub record IsDecimal (v : ℤ) (s : List ℕ) : Type 0 where
  pub digits : List ℕ
  pub text : s ≡ sign v ++ digits
  pub decimal : All IsDigit digits
  pub size : value 0 digits ≡ abs v
  pub some_digit : 1 ≤ length digits
  pub short : length digits ≤ rounds
  pub leading : (length digits ≡ 1) ⊎ (10 ^ (length digits - 1) ≤ abs v)

length-reverse : (xs : List ℕ) → length (reverse xs) ≡ length xs
length-reverse [] = refl
length-reverse (x ∷ xs) =
    rw (reverse-cons x xs) (omega (arith, length-append (reverse xs) (x ∷ []), length-reverse xs))

IsDecimal-of :
    (v : ℤ) (cs s : List ℕ) → LowDigits rounds (abs v) cs → s ≡ sign v ++ reverse cs → IsDecimal v s
IsDecimal-of v cs s (size, digits, short, one, leading) e = record {
  digits = reverse cs;
  text = e;
  decimal = All-reverse IsDigit cs digits;
  size = value-reverse cs ∙ size;
  some_digit = rw (length-reverse cs) one;
  short = rw (length-reverse cs) short;
  leading = rw (length-reverse cs) leading;
}

-- `convert` ends, and prints every 64-bit integer, signed or not, as its decimal numeral.
pub convert-IsDecimal : (v : ℤ) → abs v < 2 ^ 64 → Returns (convert v) (IsDecimal v)
unfolding convert
convert-IsDecimal (pos n) h =
    Returns-bind (LowDigits rounds n) (IsDecimal (pos n)) (convert_loop rounds (pos n)) _
      (convert_loop-LowDigits 19 (pos n) (omega arith))
      λ cs p. IsDecimal-of (pos n) cs (reverse cs) p refl
convert-IsDecimal (negsuc n) h =
    Returns-bind (LowDigits rounds (suc n)) (IsDecimal (negsuc n)) (convert_loop rounds (negsuc n))
      _ (convert_loop-LowDigits 19 (negsuc n) (omega arith))
      λ cs p.
        IsDecimal-of (negsuc n) cs (reverse (cs ++ (b'-' ∷ []))) p (reverse-append cs (b'-' ∷ []))

-- The value of a hexadecimal digit.
abbrev pub hex_digit : ℕ → ℕ
hex_digit c = if ltb c b'A' then c - b'0' else c - 55

-- The number that hexadecimal digits spell.
abbrev pub hex_value : ℕ → List ℕ → ℕ
hex_value acc [] = acc
hex_value acc (c ∷ rest) = hex_value (acc * 16 + hex_digit c) rest

abbrev low_hex_value : List ℕ → ℕ
low_hex_value [] = 0
low_hex_value (c ∷ rest) = hex_digit c + 16 * low_hex_value rest

hex_value-append :
    (xs : List ℕ) (c acc : ℕ) → hex_value acc (xs ++ (c ∷ [])) ≡ hex_value acc xs * 16 + hex_digit c
hex_value-append [] c acc = refl
hex_value-append (x ∷ xs) c acc = hex_value-append xs c (acc * 16 + hex_digit x)

hex_value-reverse : (xs : List ℕ) → hex_value 0 (reverse xs) ≡ low_hex_value xs
hex_value-reverse [] = refl
hex_value-reverse (x ∷ xs) =
    rw (reverse-cons x xs) (omega (arith, hex_value-append (reverse xs) x 0, hex_value-reverse xs))

hex_digit-char_at : (d : ℕ) → d < 16 → hex_digit (char_at "0123456789ABCDEF" d) ≡ d
hex_digit-char_at zero h = refl
hex_digit-char_at (suc zero) h = refl
hex_digit-char_at (suc (suc zero)) h = refl
hex_digit-char_at (suc (suc (suc zero))) h = refl
hex_digit-char_at (suc (suc (suc (suc zero)))) h = refl
hex_digit-char_at (suc (suc (suc (suc (suc zero))))) h = refl
hex_digit-char_at (suc (suc (suc (suc (suc (suc zero)))))) h = refl
hex_digit-char_at (suc (suc (suc (suc (suc (suc (suc zero))))))) h = refl
hex_digit-char_at (suc (suc (suc (suc (suc (suc (suc (suc zero)))))))) h = refl
hex_digit-char_at (suc (suc (suc (suc (suc (suc (suc (suc (suc zero))))))))) h = refl
hex_digit-char_at (suc (suc (suc (suc (suc (suc (suc (suc (suc (suc zero)))))))))) h = refl
hex_digit-char_at (suc (suc (suc (suc (suc (suc (suc (suc (suc (suc (suc zero))))))))))) h = refl
hex_digit-char_at (suc (suc (suc (suc (suc (suc (suc (suc (suc (suc (suc (suc zero)))))))))))) h =
    refl
hex_digit-char_at (suc (suc (suc (suc (suc (suc (suc (suc (suc (suc (suc (suc (suc zero)))))))))))))
      h =
    refl
hex_digit-char_at
      (suc (suc (suc (suc (suc (suc (suc (suc (suc (suc (suc (suc (suc (suc zero)))))))))))))) h =
    refl
hex_digit-char_at
      (suc (suc (suc (suc (suc (suc (suc (suc (suc (suc (suc (suc (suc (suc (suc zero)))))))))))))))
      h =
    refl
hex_digit-char_at
      (suc
        (suc (suc (suc (suc (suc (suc (suc (suc (suc (suc (suc (suc (suc (suc (suc n))))))))))))))))
      h =
    absurd (omega arith)

abbrev HexDigits : ℕ → ℕ → List ℕ → Type 0
HexDigits fuel m cs = (low_hex_value cs ≡ m) × (length cs ≤ fuel)

convert_hex_loop-HexDigits :
    (fuel m : ℕ)
    → m < 16 ^ suc fuel
    → Returns (convert_hex_loop (suc fuel) m) (HexDigits (suc fuel) m)
unfolding convert_hex_loop
convert_hex_loop-HexDigits zero m h =
    let e : m / 16 ≡ 0 = omega arith in
    let d = hex_digit-char_at (m % 16) (omega arith) in rw e (omega (arith, d))
convert_hex_loop-HexDigits (suc fuel) m h =
    let d = hex_digit-char_at (m % 16) (omega arith) in
    elim (Bool-cases (m / 16 == 0)) [
      | inl e ↦ rw e (omega (arith, d, (==_iff (m / 16) 0).0 e))
      | inr e ↦ rw e (
          Returns-bind (HexDigits (suc fuel) (m / 16)) (HexDigits (suc (suc fuel)) m)
            (convert_hex_loop (suc fuel) (m / 16)) _
            (convert_hex_loop-HexDigits fuel (m / 16) (omega (arith, pow-suc 16 (suc fuel))))
            λ cs p. omega (arith, d))
    ]

-- `convertHex` ends, and prints the hexadecimal digits of every address.
pub convert_hex_lem :
    (v : ℕ) → v < 2 ^ 64 → Returns (convert_hex v) (λ s. (hex_value 0 s ≡ v) × (length s ≤ rounds))
unfolding convert_hex
convert_hex_lem v h =
    Returns-bind (HexDigits rounds v) (λ s. (hex_value 0 s ≡ v) × (length s ≤ rounds))
      (convert_hex_loop rounds v) _ (convert_hex_loop-HexDigits 19 v (omega arith))
      λ cs p. (hex_value-reverse cs ∙ p.0, rw (length-reverse cs) p.1)
