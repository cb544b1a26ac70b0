-- ===== src/Buffer/Shrink.antt =====
-- shrink and unwrite of net/Buffer.h: where they keep the buffer valid, and where they do not.
use cannet.Common.{
  ℕ, ◌+◌, ◌-◌, ◌≤◌, ◌<◌, ◌≡◌, ap, ◌∙◌, some, List, ◌++◌, arith, ◌>>=◌, Returns, Returns-bind,
  max_size, add_size, length, take, replicate, slice, length-take, slice-append, slice-take,
  take-slice,
}
use cannet.Buffer.{
  Buffer, k_prepend, k_init_size, readable_bytes, writeable_bytes, ensure_writable_bytes, resize,
  shrink, unwrite,
}
use cannet.Buffer.Validity.{IsValid, sizes, resize_lem, length-resize}
use cannet.Buffer.Contents.{contents, HasRoom, ensure_writable_bytes-HasRoom, length-contents}

-- A window below the new size survives a resize.
slice-resize :
    (xs : List ℕ) (n i k : ℕ)
    → i + k ≤ length xs
    → i + k ≤ n
    → slice (take n xs ++ replicate (n - length xs) 0) i k ≡ slice xs i k
slice-resize xs n i k h g =
    slice-append (take n xs) (replicate (n - length xs) 0) i k (omega (arith, length-take n xs))
    ∙ slice-take xs n i k g

resized-contents :
    (n : ℕ) (b : Buffer)
    → IsValid b
    → b.writer_index ≤ n
    → k_prepend ≤ n
    → n ≤ max_size
    → Returns
        (resize n b.bytes >>= λ bytes. some (record b { bytes = bytes }))
        (λ b'. IsValid b' × (contents b' ≡ contents b) × (length b'.bytes ≡ n))
resized-contents n b v h g small =
    let size = length-resize n b.bytes in
    rw (resize_lem n b.bytes small) (
      omega (arith, size),
      slice-resize b.bytes n b.reader_index (b.writer_index - b.reader_index) (omega arith)
          (omega arith),
      size,
    )

-- `shrink` keeps the bytes and leaves the reserve writable, where no more than the reserve and
-- `kInitSize` lie in front of the readable bytes.
pub shrink_keeps :
    (reserve : ℕ) (b : Buffer)
    → IsValid b
    → b.reader_index ≤ reserve + k_init_size
    → length b.bytes + readable_bytes b + reserve + k_init_size ≤ max_size
    → Returns (shrink reserve b) (λ b'.
      IsValid b'
      × (contents b' ≡ contents b)
      × (length b'.bytes ≡ readable_bytes b + reserve + k_init_size))
unfolding shrink
shrink_keeps reserve b v front h =
    let len = add_size (readable_bytes b) reserve in
    Returns-bind (HasRoom len b) _ (ensure_writable_bytes len b) _
      (ensure_writable_bytes-HasRoom len b v (omega (arith, sizes b v)))
      λ b' room.
        let n = add_size (add_size (readable_bytes b') reserve) k_init_size in
        ground (
          arith,
          sizes b v,
          sizes b' room.0,
          ap length room.1,
          length-contents b v,
          length-contents b' room.0,
          resized-contents n b' room.0,
        )

-- Where more lies in front and the writable bytes already have the room asked for, `shrink` cuts the
-- vector off below the write index: the buffer is no longer valid.
pub shrink_breaks :
    (reserve : ℕ) (b : Buffer)
    → IsValid b
    → reserve + k_init_size < b.reader_index
    → readable_bytes b + reserve ≤ writeable_bytes b
    → Returns (shrink reserve b) (λ b'. length b'.bytes < b'.writer_index)
unfolding shrink ensure_writable_bytes
shrink_breaks reserve b v front room =
    let n = add_size (add_size (readable_bytes b) reserve) k_init_size in
    ground (arith, sizes b v, resize_lem n b.bytes, length-resize n b.bytes)

-- `unwrite` takes the newest bytes back, where they are readable and its assert passes.
pub unwrite_keeps :
    (len : ℕ) (b : Buffer)
    → IsValid b
    → len ≤ readable_bytes b
    → len ≤ writeable_bytes b
    → Returns
        (unwrite len b)
        (λ b'. IsValid b' × (contents b' ≡ take (readable_bytes b - len) (contents b)))
unfolding unwrite
unwrite_keeps len b v h g = ground (
  arith,
  sizes b v,
  take-slice b.bytes b.reader_index (b.writer_index - len - b.reader_index)
      (b.writer_index - b.reader_index),
)

-- The assert of `unwrite` compares with the writable bytes: it passes for more bytes than are
-- readable, and the write index then lies in front of the read index.
pub unwrite_breaks :
    (len : ℕ) (b : Buffer)
    → IsValid b
    → readable_bytes b < len
    → len ≤ writeable_bytes b
    → len ≤ b.writer_index
    → Returns (unwrite len b) (λ b'. b'.writer_index < b'.reader_index)
unfolding unwrite
unwrite_breaks len b v h g k = ground (arith, sizes b v)
