-- ===== src/FixedBuffer.antt =====
-- FixedBuffer of base/LogStream.h: a fixed array with a write position. `cur_` is an index.
pub mod Laws
mod Tests
use cannet.Common.{
  ℕ, ◌+◌, ◌-◌, Bool, List, [], ◌++◌, ℤ, to_int, gtb_ℤ, if◌then◌else◌, length, take, replicate,
  write_at, sub_size,
}

pub record FixedBuffer : Type 0 where
  pub store : List ℕ
  pub cur : ℕ

-- The array is not initialised: what it holds is an argument.
unfoldable pub create : List ℕ → FixedBuffer
create store = record { store = store; cur = 0 }

-- static_cast<int>(end() - cur_)
unfoldable pub avail : FixedBuffer → ℤ
avail b = to_int (sub_size (length b.store) b.cur)

unfoldable pub append : List ℕ → FixedBuffer → FixedBuffer
unfolding avail
append src b =
    if gtb_ℤ (avail b) (to_int (length src))
    then record b { store = write_at b.store b.cur src; cur = b.cur + length src }
    else b

-- What a client wrote at `current()`.
unfoldable pub write_current : List ℕ → FixedBuffer → FixedBuffer
write_current src b = record b { store = write_at b.store b.cur src }

unfoldable pub add : ℕ → FixedBuffer → FixedBuffer
add len b = record b { cur = b.cur + len }

unfoldable pub reset : FixedBuffer → FixedBuffer
reset b = record b { cur = 0 }

unfoldable pub reset_data : FixedBuffer → FixedBuffer
reset_data b = record b { store = replicate (length b.store) 0 }

-- The bytes from `data()` on, `length()` of them.
abbrev pub contents : FixedBuffer → List ℕ
contents b = take b.cur b.store
