-- ===== src/FixedBuffer/Laws.antt =====
-- A fixed buffer takes what fits and refuses the rest whole, up to the sizes of an int.
use cannet.Common.{
  ℕ, ◌+◌, ◌-◌, ◌^◌, ◌≤◌, ◌<◌, ◌≡◌, List, [], ◌++◌, arith, pos, length, take, write_at,
  length-write_at, length-replicate, slice-write_at_end,
}
use cannet.FixedBuffer.{FixedBuffer, avail, append, reset, reset_data, contents}

abbrev pub int_max : ℕ
int_max = 2 ^ 31 - 1

pub record IsValid (b : FixedBuffer) : Type 0 where
  pub within : b.cur < length b.store
  pub small : length b.store ≤ int_max

-- The free bytes, as a number.
abbrev pub free : FixedBuffer → ℕ
free b = length b.store - b.cur

pub avail_lem : (b : FixedBuffer) → IsValid b → avail b ≡ pos (free b)
unfolding avail
avail_lem b v = ground arith

pub write_at-contents :
    (src : List ℕ) (b : FixedBuffer)
    → b.cur + length src ≤ length b.store
    → take (b.cur + length src) (write_at b.store b.cur src) ≡ contents b ++ src
write_at-contents src b h =
    slice-write_at_end b.store src 0 b.cur b.cur (b.cur + length src) (omega arith) (omega arith)
      (omega arith)

-- What is shorter than the free space is appended.
pub append-fits :
    (src : List ℕ) (b : FixedBuffer)
    → IsValid b
    → length src < free b
    → IsValid (append src b)
      × (contents (append src b) ≡ contents b ++ src)
      × (length (append src b).store ≡ length b.store)
unfolding append
append-fits src b v h =
    ground (arith, avail_lem b v, length-write_at b.store b.cur src, write_at-contents src b)

-- What is not, and has a length that an int holds, changes nothing.
pub append-full :
    (src : List ℕ) (b : FixedBuffer)
    → IsValid b
    → free b ≤ length src
    → length src ≤ int_max
    → append src b ≡ b
unfolding append
append-full src b v h g = ground (arith, avail_lem b v)

-- A length of 2 ^ 31 and more is negative as an int: the test passes, and the write position goes
-- past the end of the array.
pub append_overflows :
    (src : List ℕ) (b : FixedBuffer)
    → IsValid b
    → int_max < length src
    → length src < 2 ^ 32
    → length (append src b).store < (append src b).cur
unfolding append
append_overflows src b v h g = ground (arith, avail_lem b v, length-write_at b.store b.cur src)

pub reset_lem : (b : FixedBuffer) → IsValid b → IsValid (reset b) × (contents (reset b) ≡ [])
unfolding reset
reset_lem b v = ground arith

-- `resetData` wipes the array and leaves the position: the contents keep their length.
pub reset_data_lem :
    (b : FixedBuffer) → IsValid b → IsValid (reset_data b) × ((reset_data b).cur ≡ b.cur)
unfolding reset_data
reset_data_lem b v = ground (arith, length-replicate {A = ℕ} (length b.store) 0)
