-- ===== src/Buffer/Validity.antt =====
-- The representation invariant of net/Buffer.h, and the sizes that it gives.
use cannet.Common.{
  ℕ, ◌+◌, ◌-◌, ◌≤◌, ◌≡◌, List, [], ◌++◌, arith, some, Returns, max_size, add_size, length, take,
  replicate, length-append, length-take, length-replicate,
}
use cannet.Buffer.{
  Buffer, resize, k_prepend, create, readable_bytes, writeable_bytes, prependable_bytes,
}

pub record IsValid (b : Buffer) : Type 0 where
  pub ordered : b.reader_index ≤ b.writer_index
  pub within : b.writer_index ≤ length b.bytes
  pub prefix : k_prepend ≤ length b.bytes
  pub small : length b.bytes ≤ max_size

-- No subtraction of indices wraps.
pub sizes :
    (b : Buffer)
    → IsValid b
    → (readable_bytes b ≡ b.writer_index - b.reader_index)
      × (writeable_bytes b ≡ length b.bytes - b.writer_index)
      × (prependable_bytes b ≡ b.reader_index)
unfolding readable_bytes writeable_bytes prependable_bytes
sizes b v = omega arith

pub sizes_add :
    (b : Buffer)
    → IsValid b
    → prependable_bytes b + readable_bytes b + writeable_bytes b ≡ length b.bytes
sizes_add b v = omega (arith, sizes b v)

pub resize_lem :
    (n : ℕ) (xs : List ℕ)
    → n ≤ max_size
    → resize n xs ≡ some (take n xs ++ replicate (n - length xs) 0)
unfolding resize
resize_lem n xs h = ground arith

pub length-resize : (n : ℕ) (xs : List ℕ) → length (take n xs ++ replicate (n - length xs) 0) ≡ n
length-resize n xs = omega (
  arith,
  length-append (take n xs) (replicate (n - length xs) 0),
  length-take n xs,
  length-replicate {A = ℕ} (n - length xs) 0,
)

pub create-IsValid :
    (n : ℕ)
    → n + k_prepend ≤ max_size
    → Returns (create n) (λ b. IsValid b × (readable_bytes b ≡ 0) × (writeable_bytes b ≡ n))
unfolding create resize readable_bytes writeable_bytes
create-IsValid n h = ground (arith, length-resize (add_size k_prepend n) [])
