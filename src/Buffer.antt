-- ===== src/Buffer.antt =====
-- net/Buffer.h and net/Buffer.cpp: the byte buffer of a connection.
-- A pointer into the buffer is its index; a failed assert and a length_error of the vector are
-- `none`. A byte is a number below 256, and an intN_t is its two's complement pattern.
pub mod Search
pub mod Ints
pub mod Validity
pub mod Contents
pub mod Reading
pub mod Refinement
pub mod Shrink
mod Tests
use cannet.Common.{
  ℕ, zero, suc, ◌+◌, ◌-◌, ◌*◌, ◌/◌, ◌%◌, ◌≤◌, Bool, Option, none, some, List, [], ◌∷◌, ◌++◌, ltb,
  leb, ◌==◌, if◌then◌else◌, ◌>>=◌, ◌>>◌, guard, add_size, sub_size, max_size, length, take,
  replicate, write_at, slice,
}
use cannet.SocketOps.{IoResult, failed, count, Received, read_failed, bytes_in}

abbrev pub k_prepend : ℕ
k_prepend = 8

abbrev pub k_init_size : ℕ
k_init_size = 1024

pub record Buffer : Type 0 where
  pub bytes : List ℕ
  pub reader_index : ℕ
  pub writer_index : ℕ

-- std::vector<char>::resize: the new bytes are 0.
pub resize : ℕ → List ℕ → Option (List ℕ)
resize n bytes =
    if leb n max_size then some (take n bytes ++ replicate (n - length bytes) 0) else none

pub create : ℕ → Option Buffer
create initial_size = do
  bytes ← resize (add_size k_prepend initial_size) []
  some (record { bytes = bytes; reader_index = k_prepend; writer_index = k_prepend })

pub swap : Buffer → Buffer → Buffer × Buffer
swap a b = (b, a)

unfoldable pub readable_bytes : Buffer → ℕ
readable_bytes b = sub_size b.writer_index b.reader_index

unfoldable pub writeable_bytes : Buffer → ℕ
writeable_bytes b = sub_size (length b.bytes) b.writer_index

unfoldable pub prependable_bytes : Buffer → ℕ
prependable_bytes b = b.reader_index

-- The bytes from `peek()` on, as many as are asked for.
unfoldable pub peek_bytes : Buffer → ℕ → List ℕ
peek_bytes b len = slice b.bytes b.reader_index len

unfoldable pub retrieve_all : Buffer → Buffer
retrieve_all b = record b { reader_index = k_prepend; writer_index = k_prepend }

pub retrieve : ℕ → Buffer → Option Buffer
unfolding retrieve_all
retrieve len b = do
  guard (leb len (readable_bytes b))
  some (
      if ltb len (readable_bytes b)
      then record b { reader_index = add_size b.reader_index len }
      else retrieve_all b)

pub retrieve_until : ℕ → Buffer → Option Buffer
unfolding retrieve
retrieve_until end_index b = do
  guard (leb b.reader_index end_index)
  guard (leb end_index b.writer_index)
  retrieve (sub_size end_index b.reader_index) b

pub retrieve_as_string : ℕ → Buffer → Option (List ℕ × Buffer)
unfolding retrieve
retrieve_as_string len b = do
  guard (leb len (readable_bytes b))
  b' ← retrieve len b
  some (peek_bytes b len, b')

pub retrieve_all_as_string : Buffer → Option (List ℕ × Buffer)
unfolding retrieve_as_string
retrieve_all_as_string b = retrieve_as_string (readable_bytes b) b

pub has_written : ℕ → Buffer → Option Buffer
has_written len b = do
  guard (leb len (writeable_bytes b))
  some (record b { writer_index = add_size b.writer_index len })

-- The assert is the source's.
pub unwrite : ℕ → Buffer → Option Buffer
unwrite len b = do
  guard (leb len (writeable_bytes b))
  some (record b { writer_index = sub_size b.writer_index len })

-- The readable bytes moved down to `k_prepend`.
unfoldable pub compact : Buffer → Buffer
compact b = record {
  bytes = write_at b.bytes k_prepend (slice b.bytes b.reader_index (readable_bytes b));
  reader_index = k_prepend;
  writer_index = add_size k_prepend (readable_bytes b);
}

make_space : ℕ → Buffer → Option Buffer
make_space len b =
    if ltb (add_size (writeable_bytes b) (prependable_bytes b)) (add_size len k_prepend)
    then (do
      bytes ← resize (add_size b.writer_index len) b.bytes
      some (record b { bytes = bytes }))
    else (do
      guard (ltb k_prepend b.reader_index)
      guard (readable_bytes b == readable_bytes (compact b))
      some (compact b))

pub ensure_writable_bytes : ℕ → Buffer → Option Buffer
unfolding make_space
ensure_writable_bytes len b = if ltb (writeable_bytes b) len then make_space len b else some b

pub append : List ℕ → Buffer → Option Buffer
unfolding ensure_writable_bytes has_written
append src b = do
  b' ← ensure_writable_bytes (length src) b
  has_written (length src) (record b' { bytes = write_at b'.bytes b'.writer_index src })

pub prepend : List ℕ → Buffer → Option Buffer
prepend src b = do
  guard (leb (length src) (prependable_bytes b))
  let start = sub_size b.reader_index (length src)
  some (record b { bytes = write_at b.bytes start src; reader_index = start })

pub shrink : ℕ → Buffer → Option Buffer
unfolding ensure_writable_bytes
shrink reserve b = do
  b' ← ensure_writable_bytes (add_size (readable_bytes b) reserve) b
  bytes ← resize (add_size (add_size (readable_bytes b') reserve) k_init_size) b'.bytes
  some (record b' { bytes = bytes })

abbrev pub extrabuf_size : ℕ
extrabuf_size = 65536

store_received : List ℕ → Buffer → Option (IoResult × Buffer)
unfolding append
store_received received b =
    let writable = writeable_bytes b in
    let filled = write_at b.bytes b.writer_index received in
    let spilled =
      append (slice received writable (length received - writable))
        (record b { bytes = filled; writer_index = length b.bytes }) in
    if leb (length received) writable
    then some (
      count (length received),
      record b { bytes = filled; writer_index = add_size b.writer_index (length received) },
    )
    else (do b' ← spilled; some (count (length received), b'))

-- The room that readFd offers to readv: the second block only where the first is the smaller.
unfoldable pub iov_room : Buffer → ℕ
iov_room b =
    if ltb (writeable_bytes b) extrabuf_size
    then writeable_bytes b + extrabuf_size
    else writeable_bytes b

-- `readv` answers for the room that it is offered. The result is the return value, with the errno
-- that is saved.
unfoldable pub read_fd : (ℕ → Received) → Buffer → Option (IoResult × Buffer)
unfolding store_received
read_fd readv b = elim (readv (iov_room b)) [
  | read_failed errno ↦ some (failed errno, b)
  | bytes_in received ↦ store_received received b
]
