-- ===== src/Buffer/Contents.antt =====
-- The operations of net/Buffer.h on the readable bytes.
use cannet.Common.{
  ℕ, ◌+◌, ◌-◌, ◌≤◌, ◌<◌, ◌≡◌, refl, ap, ◌∙◌, none, List, ◌++◌, arith, Returns, Returns-bind,
  max_size, add_size, sub_size, length, take, drop, replicate, write_at, slice, length-slice,
  length-write_at, slice-append, take-all, drop-all, slice-write_at_end, slice-write_at_front,
  drop-slice, take-slice,
}
use cannet.Buffer.{
  Buffer, k_prepend, readable_bytes, writeable_bytes, prependable_bytes, retrieve_all, retrieve,
  has_written, compact, make_space, ensure_writable_bytes, append, prepend, retrieve_as_string,
  peek_bytes, retrieve_until,
}
use cannet.Buffer.Validity.{IsValid, sizes, resize_lem, length-resize}

-- The bytes between the two indices.
abbrev pub contents : Buffer → List ℕ
contents b = slice b.bytes b.reader_index (b.writer_index - b.reader_index)

pub length-contents : (b : Buffer) → IsValid b → length (contents b) ≡ readable_bytes b
length-contents b v =
    omega (arith, sizes b v, length-slice b.bytes b.reader_index (b.writer_index - b.reader_index))

-- A buffer that holds the same bytes in its window, and has room for `len` more.
abbrev pub HasRoom : ℕ → Buffer → Buffer → Type 0
HasRoom len b b' =
    IsValid b'
    × (contents b' ≡ contents b)
    × (len ≤ writeable_bytes b')
    × (length b'.bytes ≤ length b.bytes + len)
    × (b'.reader_index ≤ b.reader_index)

pub slice-resize :
    (xs : List ℕ) (n i k : ℕ)
    → i + k ≤ length xs
    → length xs ≤ n
    → slice (take n xs ++ replicate (n - length xs) 0) i k ≡ slice xs i k
slice-resize xs n i k h g =
    rw (take-all n xs g) (slice-append xs (replicate (n - length xs) 0) i k h)

grown-HasRoom :
    (len n : ℕ) (b : Buffer)
    → IsValid b
    → length b.bytes + len ≤ max_size
    → n ≡ b.writer_index + len
    → length b.bytes ≤ n
    → HasRoom len b (record b { bytes = take n b.bytes ++ replicate (n - length b.bytes) 0 })
unfolding writeable_bytes
grown-HasRoom len n b v h e g =
    let size = length-resize n b.bytes in
    (
      omega (arith, size),
      slice-resize b.bytes n b.reader_index (b.writer_index - b.reader_index) (omega arith) g,
      omega (arith, size),
      omega (arith, size),
      omega arith,
    )

-- Moving the readable bytes down loses none of them.
compact_lem :
    (b : Buffer)
    → IsValid b
    → k_prepend ≤ b.reader_index
    → IsValid (compact b)
      × (contents (compact b) ≡ contents b)
      × (readable_bytes (compact b) ≡ readable_bytes b)
      × (writeable_bytes (compact b) + k_prepend ≡ writeable_bytes b + b.reader_index)
      × (length (compact b).bytes ≡ length b.bytes)
      × ((compact b).reader_index ≡ k_prepend)
unfolding compact readable_bytes writeable_bytes
compact_lem b v h = (
  omega (arith, kept),
  slice-write_at_end b.bytes src k_prepend 0 k_prepend _ refl (omega (arith, size)) (omega arith)
      ∙ ap (slice b.bytes b.reader_index) (omega arith),
  omega arith,
  omega (arith, kept),
  kept,
  refl,
)
  where
    src : List ℕ
    src = slice b.bytes b.reader_index (readable_bytes b)

    size : length src ≡ readable_bytes b
    size = length-slice b.bytes b.reader_index (readable_bytes b) (omega arith)

    kept : length (write_at b.bytes k_prepend src) ≡ length b.bytes
    kept = length-write_at b.bytes k_prepend src

make_space-HasRoom :
    (len : ℕ) (b : Buffer)
    → IsValid b
    → length b.bytes + len ≤ max_size
    → writeable_bytes b < len
    → Returns (make_space len b) (HasRoom len b)
unfolding make_space
make_space-HasRoom len b v h lt = ground (
  arith,
  sizes b v,
  resize_lem (add_size b.writer_index len) b.bytes,
  grown-HasRoom len (add_size b.writer_index len) b v h,
  compact_lem b v,
)

pub ensure_writable_bytes-HasRoom :
    (len : ℕ) (b : Buffer)
    → IsValid b
    → length b.bytes + len ≤ max_size
    → Returns (ensure_writable_bytes len b) (HasRoom len b)
unfolding ensure_writable_bytes
ensure_writable_bytes-HasRoom len b v h = ground (arith, make_space-HasRoom len b v h)

-- The copy of `append` into a buffer with room, and the move of the index.
written-contents :
    (src : List ℕ) (b : Buffer)
    → IsValid b
    → length src ≤ writeable_bytes b
    → Returns
        (has_written (length src) (record b { bytes = write_at b.bytes b.writer_index src }))
        (λ b'. IsValid b' × (contents b' ≡ contents b ++ src) × (length b'.bytes ≡ length b.bytes))
unfolding has_written writeable_bytes
written-contents src b v h = ground (
  arith,
  length-write_at b.bytes b.writer_index src,
  slice-write_at_end b.bytes src b.reader_index (b.writer_index - b.reader_index) b.writer_index
      (add_size b.writer_index (length src) - b.reader_index),
)

-- `append` makes room where it needs to, and puts the new bytes behind the readable ones; the
-- buffer stays valid and grows by no more than what is appended.
pub append_lem :
    (src : List ℕ) (b : Buffer)
    → IsValid b
    → length b.bytes + length src ≤ max_size
    → Returns (append src b) (λ b'.
      IsValid b'
      × (contents b' ≡ contents b ++ src)
      × (length b'.bytes ≤ length b.bytes + length src))
unfolding append
append_lem src b v h =
    Returns-bind (HasRoom (length src) b) _ (ensure_writable_bytes (length src) b) _
      (ensure_writable_bytes-HasRoom (length src) b v h)
      λ b' room. ground (arith, written-contents src b')

-- `prepend` puts bytes in front of the readable ones where they fit there, and fails otherwise.
pub prepend_lem :
    (src : List ℕ) (b : Buffer)
    → IsValid b
    → length src ≤ prependable_bytes b
    → Returns
        (prepend src b)
        (λ b'. IsValid b' × (contents b' ≡ src ++ contents b) × (length b'.bytes ≡ length b.bytes))
unfolding prepend
prepend_lem src b v h = ground (
  arith,
  sizes b v,
  length-write_at b.bytes (sub_size b.reader_index (length src)) src,
  slice-write_at_front b.bytes src (sub_size b.reader_index (length src))
      (b.writer_index - b.reader_index) b.reader_index
      (b.writer_index - sub_size b.reader_index (length src)),
)

-- `retrieve` drops the oldest bytes, and fails when fewer are readable.
pub retrieve_lem :
    (len : ℕ) (b : Buffer)
    → IsValid b
    → len ≤ readable_bytes b
    → Returns (retrieve len b) (λ b'.
      IsValid b' × (contents b' ≡ drop len (contents b)) × (length b'.bytes ≡ length b.bytes))
unfolding retrieve retrieve_all
retrieve_lem len b v h = ground (
  arith,
  sizes b v,
  length-contents b v,
  drop-all len (contents b),
  drop-slice b.bytes b.reader_index len (b.writer_index - add_size b.reader_index len)
      (add_size b.reader_index len) (b.writer_index - b.reader_index),
)

pub retrieve_as_string_lem :
    (len : ℕ) (b : Buffer)
    → IsValid b
    → len ≤ readable_bytes b
    → Returns (retrieve_as_string len b) (λ r.
      (r.0 ≡ take len (contents b))
      × IsValid r.1
      × (contents r.1 ≡ drop len (contents b))
      × (length r.1.bytes ≡ length b.bytes))
unfolding retrieve_as_string peek_bytes
retrieve_as_string_lem len b v h = ground (
  arith,
  sizes b v,
  retrieve_lem len b v h,
  take-slice b.bytes b.reader_index len (b.writer_index - b.reader_index),
)

-- A buffer that holds too few bytes: the assert fails, and nothing is read.
pub retrieve_too_much :
    (len : ℕ) (b : Buffer)
    → readable_bytes b < len
    → (retrieve len b ≡ none) × (retrieve_as_string len b ≡ none)
unfolding retrieve retrieve_as_string
retrieve_too_much len b h = ground arith

-- `retrieveUntil` reads up to a pointer into the readable bytes.
pub retrieve_until_lem :
    (end_index : ℕ) (b : Buffer)
    → IsValid b
    → b.reader_index ≤ end_index
    → end_index ≤ b.writer_index
    → Returns
        (retrieve_until end_index b)
        (λ b'. IsValid b' × (contents b' ≡ drop (end_index - b.reader_index) (contents b)))
unfolding retrieve_until
retrieve_until_lem end_index b v h g =
    ground (arith, sizes b v, retrieve_lem (end_index - b.reader_index) b v)
