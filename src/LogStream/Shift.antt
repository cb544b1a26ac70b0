-- ===== src/LogStream/Shift.antt =====
-- `operator<<` of base/LogStream.cpp: what each overload adds to the line.
use cannet.Common.{
  ℕ, ◌+◌, ◌-◌, ◌^◌, ◌≤◌, ◌<◌, ◌≡◌, refl, ◌⊎◌, inl, inr, true, false, none, some, List, [], ◌∷◌,
  ◌++◌, arith, ℤ, pos, negsuc, abs, Returns, Returns-bind, Bool-cases, ltb, leb, length, take,
  write_at, length-append, length-write_at, slice-write_at_end, take-all, take-slice, take-append,
  length-take, append_assoc, sym, ap, ◌∙◌,
}
use cannet.FixedBuffer.{FixedBuffer, append, write_current, add, contents}
use cannet.FixedBuffer.Laws.{IsValid, int_max, free, avail_lem, append-fits, append-full}
use cannet.LogStream.{
  Item, bool, integer, pointer, double, char, c_string, string, codes, convert, convert_hex, rounds,
  has_numeric_room, k_max_numeric_size, format_integer, format_pointer, format_double, shift,
  shift_all,
}
use cannet.LogStream.Numbers.{IsDecimal, sign, hex_value, convert-IsDecimal, convert_hex_lem}

-- The items that the program can shift: 64-bit integers and addresses, doubles whose 12 digits fit
-- the size for numbers, texts whose length an int holds.
abbrev pub InRange : Item → Type 0
InRange (bool v) = Unit
InRange (integer v) = abs v < 2 ^ 64
InRange (pointer v) = v < 2 ^ 64
InRange (double text) = length text < k_max_numeric_size
InRange (char c) = Unit
InRange (c_string none) = Unit
InRange (c_string (some text)) = length text ≤ int_max
InRange (string text) = length text ≤ int_max

-- What an item prints.
abbrev pub Prints : Item → List ℕ → Type 0
Prints (bool true) s = s ≡ codes "1"
Prints (bool false) s = s ≡ codes "0"
Prints (integer v) s = IsDecimal v s
Prints (pointer v) s = (ds : List ℕ) × (s ≡ codes "0x" ++ ds) × (hex_value 0 ds ≡ v)
Prints (double text) s = s ≡ text
Prints (char c) s = s ≡ c ∷ []
Prints (c_string none) s = s ≡ codes "(null)"
Prints (c_string (some text)) s = s ≡ text
Prints (string text) s = s ≡ text

-- The free space below which an item is dropped: a text needs one byte more than its length, a
-- number the fixed size.
abbrev pub needed : Item → ℕ
needed (bool v) = 2
needed (integer v) = k_max_numeric_size
needed (pointer v) = k_max_numeric_size
needed (double text) = k_max_numeric_size
needed (char c) = 2
needed (c_string none) = 7
needed (c_string (some text)) = length text + 1
needed (string text) = length text + 1

-- The item was printed at the end, with room for it, or dropped for want of room.
abbrev pub Shifted : Item → FixedBuffer → FixedBuffer → Type 0
Shifted item b b' =
    IsValid b'
    × (length b'.store ≡ length b.store)
    × (((s : List ℕ) × Prints item s × (contents b' ≡ contents b ++ s) × (needed item ≤ free b))
        ⊎ ((b' ≡ b) × (free b < needed item)))

append-cases :
    (src : List ℕ) (b : FixedBuffer)
    → IsValid b
    → length src ≤ int_max
    → ((length src + 1 ≤ free b)
        × IsValid (append src b)
        × (contents (append src b) ≡ contents b ++ src)
        × (length (append src b).store ≡ length b.store))
      ⊎ ((append src b ≡ b) × (free b < length src + 1))
append-cases src b v h = elim (Bool-cases (ltb (length src) (free b))) [
  | inl e ↦ let (w, c, l) = append-fits src b v (ground arith) in inl (ground arith, w, c, l)
  | inr e ↦ inr (append-full src b v (ground arith) h, ground arith)
]

has_numeric_room_lem :
    (b : FixedBuffer) → IsValid b → has_numeric_room b ≡ leb k_max_numeric_size (free b)
unfolding has_numeric_room
has_numeric_room_lem b v = rw (avail_lem b v) (ground arith)

-- A number and the 0 behind it, written at the current position.
written_lem :
    (s : List ℕ) (n : ℕ) (b : FixedBuffer)
    → IsValid b
    → n ≡ length s
    → length s + 1 ≤ free b
    → let b' = add n (write_current (s ++ (0 ∷ [])) b) in
      IsValid b' × (length b'.store ≡ length b.store) × (contents b' ≡ contents b ++ s)
unfolding add write_current
written_lem s k b v e h =
    let n = b.cur + k in
    let kept = length-write_at b.store b.cur (s ++ (0 ∷ [])) in
    let size = length-append s (0 ∷ []) in
    let whole =
      slice-write_at_end b.store (s ++ (0 ∷ [])) 0 b.cur b.cur (n + 1) (omega arith)
        (omega (arith, size, e)) (omega arith) in
    let front = take-slice (write_at b.store b.cur (s ++ (0 ∷ []))) 0 n (n + 1) (omega arith) in
    let shape = append_assoc (contents b) s (0 ∷ []) in
    let text =
      take-append n (contents b ++ s) (0 ∷ [])
        (omega (arith, length-append (contents b) s, length-take b.cur b.store)) in
    (omega (arith, kept), kept, sym front ∙ ap (take n) (whole ∙ sym shape) ∙ text)

integer-Shifted :
    (value : ℤ) (b : FixedBuffer)
    → IsValid b
    → abs value < 2 ^ 64
    → Returns (format_integer value b) (Shifted (integer value) b)
unfolding format_integer
integer-Shifted value b v h = elim (Bool-cases (leb k_max_numeric_size (free b))) [
  | inl e ↦
      rw (has_numeric_room_lem b v, e)
        (Returns-bind (IsDecimal value) (Shifted (integer value) b) (convert value) _
          (convert-IsDecimal value h)
          λ s p.
            let (w, l, c) = written_lem s (length s) b v refl (room (ground arith) s p) in
            (w, l, inl (s, p, c, ground arith)))
  | inr e ↦ rw (has_numeric_room_lem b v, e) (v, refl, inr (refl, ground arith))
]
  where
    sign_le : length (sign value) ≤ 1
    sign_le = elim value as (λ x. length (sign x) ≤ 1) [
      | pos n ↦ omega arith
      | negsuc n ↦ omega arith
    ]

    room : k_max_numeric_size ≤ free b → (s : List ℕ) → IsDecimal value s → length s + 1 ≤ free b
    room g s p =
        omega (arith, ap length p.text, length-append (sign value) p.digits, p.short, sign_le)

pointer-Shifted :
    (value : ℕ) (b : FixedBuffer)
    → IsValid b
    → value < 2 ^ 64
    → Returns (format_pointer value b) (Shifted (pointer value) b)
unfolding format_pointer
pointer-Shifted value b v h = elim (Bool-cases (leb k_max_numeric_size (free b))) [
  | inl e ↦
      rw (has_numeric_room_lem b v, e)
        (Returns-bind (λ s. (hex_value 0 s ≡ value) × (length s ≤ rounds))
          (Shifted (pointer value) b) (convert_hex value) _ (convert_hex_lem value h)
          λ s p.
            let (w, l, c) =
              written_lem (codes "0x" ++ s) (length s + 2) b v (omega arith) (ground arith) in
            (w, l, inl (codes "0x" ++ s, (s, refl, p.0), c, ground arith)))
  | inr e ↦ rw (has_numeric_room_lem b v, e) (v, refl, inr (refl, ground arith))
]

double-Shifted :
    (text : List ℕ) (b : FixedBuffer)
    → IsValid b
    → length text < k_max_numeric_size
    → Shifted (double text) b (format_double text b)
unfolding format_double
double-Shifted text b v h = elim (Bool-cases (leb k_max_numeric_size (free b))) [
  | inl e ↦
      let (w, l, c) = written_lem text (length text) b v refl (ground arith) in
      rw (has_numeric_room_lem b v, e, take-all (k_max_numeric_size - 1) text (omega arith))
        (w, l, inl (text, refl, c, ground arith))
  | inr e ↦ rw (has_numeric_room_lem b v, e) (v, refl, inr (refl, ground arith))
]

text-Shifted :
    (item : Item) (text : List ℕ) (b : FixedBuffer)
    → IsValid b
    → length text ≤ int_max
    → Prints item text
    → needed item ≡ length text + 1
    → Shifted item b (append text b)
text-Shifted item text b v h p e = elim (append-cases text b v h) [
  | inl (room, w, c, l) ↦ (w, l, inl (text, p, c, omega arith))
  | inr (same, full) ↦ rw same (v, refl, inr (refl, omega arith))
]

-- Every overload leaves the buffer valid: it adds the whole text of its item, a decimal or
-- hexadecimal numeral for a number, or, where the free space is too small for it, nothing.
pub shift-Shifted :
    (item : Item) (b : FixedBuffer)
    → IsValid b
    → InRange item
    → Returns (shift item b) (Shifted item b)
unfolding shift
shift-Shifted (bool true) b v h =
    text-Shifted (bool true) (codes "1") b v (omega arith) refl (omega arith)
shift-Shifted (bool false) b v h =
    text-Shifted (bool false) (codes "0") b v (omega arith) refl (omega arith)
shift-Shifted (integer value) b v h = integer-Shifted value b v h
shift-Shifted (pointer value) b v h = pointer-Shifted value b v h
shift-Shifted (double text) b v h = double-Shifted text b v h
shift-Shifted (char c) b v h = text-Shifted (char c) (c ∷ []) b v (omega arith) refl (omega arith)
shift-Shifted (c_string none) b v h =
    text-Shifted (c_string none) (codes "(null)") b v (omega arith) refl (omega arith)
shift-Shifted (c_string (some text)) b v h =
    text-Shifted (c_string (some text)) text b v h refl refl
shift-Shifted (string text) b v h = text-Shifted (string text) text b v h refl refl

abbrev pub AllInRange : List Item → Type 0
AllInRange [] = Unit
AllInRange (item ∷ items) = InRange item × AllInRange items

-- A line never runs over its buffer, whatever is shifted into it.
pub shift_all-IsValid :
    (items : List Item) (b : FixedBuffer)
    → IsValid b
    → AllInRange items
    → Returns (shift_all items b) (λ b'. IsValid b' × (length b'.store ≡ length b.store))
unfolding shift_all
shift_all-IsValid [] b v h = (v, refl)
shift_all-IsValid (item ∷ items) b v h =
    Returns-bind (Shifted item b) _ (shift item b) (shift_all items) (shift-Shifted item b v h.0)
      λ b' p. ground (arith, p, shift_all-IsValid items b' p.0 h.1)
