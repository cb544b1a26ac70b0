-- ===== src/Buffer/Reading.antt =====
-- readFd of net/Buffer.cpp, on the readable bytes.
use cannet.Common.{
  some, ℕ, ◌+◌, ◌-◌, ◌≤◌, ◌≡◌, List, ◌++◌, arith, Returns, max_size, add_size, length, take, drop,
  write_at, slice, length-write_at, take-all, slice-write_at_end, length-take, write_at-take,
  take-append-drop, length-drop, append_assoc,
}
use cannet.Buffer.{Buffer, writeable_bytes, read_fd, iov_room, store_received, extrabuf_size}
use cannet.SocketOps.{count, failed, Received, read_failed, bytes_in}
use cannet.Buffer.Validity.{IsValid, sizes}
use cannet.Buffer.Contents.{contents, append_lem}

-- The first block filled by a read that is too long for it.
filled-contents :
    (received : List ℕ) (b : Buffer)
    → IsValid b
    → writeable_bytes b ≤ length received
    → let b' = record b {
      bytes = write_at b.bytes b.writer_index received;
      writer_index = length b.bytes;
    } in
      IsValid b'
      × (contents b' ≡ contents b ++ take (writeable_bytes b) received)
      × (length b'.bytes ≡ length b.bytes)
filled-contents received b v h =
    let w = writeable_bytes b in
    let front = length-take w received in
    let fits : length b.bytes ≡ b.writer_index + w = omega (arith, sizes b v) in
    ground (
      arith,
      sizes b v,
      front,
      fits,
      length-write_at b.bytes b.writer_index received,
      write_at-take b.bytes received b.writer_index w fits,
      slice-write_at_end b.bytes (take w received) b.reader_index (b.writer_index - b.reader_index)
          b.writer_index (length b.bytes - b.reader_index),
    )

stored-contents :
    (received : List ℕ) (b : Buffer)
    → IsValid b
    → length b.bytes + (length received - writeable_bytes b) ≤ max_size
    → Returns (store_received received b) (λ r.
      (r.0 ≡ count (length received))
      × IsValid r.1
      × (contents r.1 ≡ contents b ++ received)
      × (length r.1.bytes ≤ length b.bytes + (length received - writeable_bytes b)))
unfolding store_received
stored-contents received b v h =
    let w = writeable_bytes b in
    let rest = slice received w (length received - w) in
    let dropped = length-drop w received in
    let whole = take-all (length received - w) (drop w received) (omega (arith, dropped)) in
    ground (
      arith,
      sizes b v,
      dropped,
      whole,
      length-write_at b.bytes b.writer_index received,
      slice-write_at_end b.bytes received b.reader_index (b.writer_index - b.reader_index)
          b.writer_index (add_size b.writer_index (length received) - b.reader_index),
      filled-contents received b v,
      append_lem rest (record b {
        bytes = write_at b.bytes b.writer_index received;
        writer_index = length b.bytes;
      }),
      take-append-drop w received,
      append_assoc (contents b) (take w received) rest,
    )

-- `readFd` appends all that the kernel answers, whether it fits the buffer or spills into the second
-- block, and reports its length; one call grows the buffer by no more than that block.
pub read_fd_lem :
    (readv : ℕ → Received) (received : List ℕ) (b : Buffer)
    → IsValid b
    → length b.bytes + extrabuf_size ≤ max_size
    → readv (iov_room b) ≡ bytes_in received
    → length received ≤ iov_room b
    → Returns (read_fd readv b) (λ r.
      (r.0 ≡ count (length received))
      × IsValid r.1
      × (contents r.1 ≡ contents b ++ received)
      × (length r.1.bytes ≤ length b.bytes + extrabuf_size))
unfolding read_fd iov_room
read_fd_lem readv received b v h e room =
    rw (e, read_fd) (ground (arith, sizes b v, stored-contents received b v))

-- Where readv(2) fails the errno is reported, and the buffer stays.
pub read_fd_failed :
    (readv : ℕ → Received) (errno : ℕ) (b : Buffer)
    → readv (iov_room b) ≡ read_failed errno
    → read_fd readv b ≡ some (failed errno, b)
unfolding read_fd iov_room
read_fd_failed readv errno b e = rw (e, read_fd)
