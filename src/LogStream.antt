-- ===== src/LogStream.antt =====
-- LogStream of base/LogStream.h and base/LogStream.cpp: values printed into a fixed buffer.
pub mod Digits
pub mod Numbers
pub mod Shift
pub mod Lines
mod Tests
use Prim.Native.Char.{code}
use Prim.Native.String.{String}
use cannet.Common.{
  ℕ, zero, suc, ◌+◌, ◌-◌, ◌*◌, ◌/◌, ◌%◌, ◌^◌, ◌≤◌, Bool, true, false, Option, none, some, List, [],
  ◌∷◌, ◌++◌, reverse, ℤ, pos, negsuc, neg, abs, is_negative, gtb_ℤ, ltb, ◌==◌, if◌then◌else◌, ◌>>=◌,
  length, take, get_elem?, write_at,
}
use cannet.FixedBuffer.{FixedBuffer, avail, append, write_current, add, reset_data}

-- The bytes of a literal.
abbrev pub codes : String → List ℕ
codes String.[] = []
codes (String.◌∷◌ c s) = code c ∷ codes s

-- The byte at an index of a literal; the terminating 0 and what is behind it are 0.
abbrev pub char_at : String → ℕ → ℕ
char_at s i = elim (get_elem? (codes s) i) [ none ↦ 0 | some c ↦ c ]

-- `zero[lsd]`, where `zero` points nine places into `digits`: lsd runs from -9 to 9.
pub zero_char : ℤ → ℕ
zero_char (pos d) = char_at "9876543210123456789" (9 + d)
zero_char (negsuc d) = char_at "9876543210123456789" (9 - suc d)

-- C division truncates, so that the remainder has the sign of the dividend.
abbrev pub quot_ten : ℤ → ℤ
quot_ten (pos n) = pos (n / 10)
quot_ten (negsuc n) = neg (suc n / 10)

abbrev pub rem_ten : ℤ → ℤ
rem_ten (pos n) = pos (n % 10)
rem_ten (negsuc n) = neg (suc n % 10)

-- The do-while loop of `convert`, least digit first; `none` where the fuel runs out.
pub convert_loop : ℕ → ℤ → Option (List ℕ)
unfolding zero_char
convert_loop zero i = none
convert_loop (suc fuel) i =
    let more = convert_loop fuel (quot_ten i) >>= λ rest. some (zero_char (rem_ten i) ∷ rest) in
    if abs (quot_ten i) == 0 then some (zero_char (rem_ten i) ∷ []) else more

-- Twenty rounds are enough for 64 bits.
abbrev pub rounds : ℕ
rounds = 20

-- The characters of a value; the terminating 0 is written by `format_integer`.
pub convert : ℤ → Option (List ℕ)
unfolding convert_loop
convert value = do
  digits ← convert_loop rounds value
  some (reverse (if is_negative value then digits ++ (b'-' ∷ []) else digits))

pub convert_hex_loop : ℕ → ℕ → Option (List ℕ)
convert_hex_loop zero i = none
convert_hex_loop (suc fuel) i =
    let c = char_at "0123456789ABCDEF" (i % 16) in
    let more = convert_hex_loop fuel (i / 16) >>= λ rest. some (c ∷ rest) in
    if i / 16 == 0 then some (c ∷ []) else more

pub convert_hex : ℕ → Option (List ℕ)
unfolding convert_hex_loop
convert_hex value = do digits ← convert_hex_loop rounds value; some (reverse digits)

abbrev pub k_max_numeric_size : ℕ
k_max_numeric_size = 48

-- `avail() >= kMaxNumericSize`
pub has_numeric_room : FixedBuffer → Bool
has_numeric_room b = gtb_ℤ (avail b) (pos (k_max_numeric_size - 1))

pub format_integer : ℤ → FixedBuffer → Option FixedBuffer
unfolding has_numeric_room convert
format_integer value b =
    let written = convert value >>= λ s. some (add (length s) (write_current (s ++ (0 ∷ [])) b)) in
    if has_numeric_room b then written else some b

pub format_pointer : ℕ → FixedBuffer → Option FixedBuffer
unfolding has_numeric_room convert_hex
format_pointer value b =
    let written = convert_hex value >>= λ s.
    some (add (length s + 2) (write_current (codes "0x" ++ (s ++ (0 ∷ []))) b)) in
    if has_numeric_room b then written else some b

-- snprintf(3) with "%.12g" is the library's: `text` is what it prints, of which it stores at most
-- `kMaxNumericSize` - 1 bytes and a 0, and it answers the whole length.
pub format_double : List ℕ → FixedBuffer → FixedBuffer
unfolding has_numeric_room
format_double text b =
    if has_numeric_room b
    then add (length text) (write_current (take (k_max_numeric_size - 1) text ++ (0 ∷ [])) b)
    else b

-- What `operator<<` is overloaded on. A float is shifted as the double of its value, and every
-- integer goes to `format_integer` as its value.
pub data Item : Type 0 where
  bool : Bool → Item
  integer : ℤ → Item
  pointer : ℕ → Item
  double : List ℕ → Item
  char : ℕ → Item
  c_string : Option (List ℕ) → Item
  string : List ℕ → Item

pub shift : Item → FixedBuffer → Option FixedBuffer
unfolding format_integer format_pointer format_double
shift (bool true) b = some (append (codes "1") b)
shift (bool false) b = some (append (codes "0") b)
shift (integer value) b = format_integer value b
shift (pointer value) b = format_pointer value b
shift (double text) b = some (format_double text b)
shift (char c) b = some (append (c ∷ []) b)
shift (c_string none) b = some (append (codes "(null)") b)
shift (c_string (some text)) b = some (append text b)
shift (string text) b = some (append text b)

pub shift_all : List Item → FixedBuffer → Option FixedBuffer
unfolding shift
shift_all [] b = some b
shift_all (item ∷ items) b = do b' ← shift item b; shift_all items b'

-- resetBuffer, which leaves the write pointer where it is.
unfoldable pub reset_buffer : FixedBuffer → FixedBuffer
unfolding reset_data
reset_buffer b = reset_data b
