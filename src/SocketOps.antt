-- ===== src/SocketOps.antt =====
-- What the system calls behind net/SocketOps.cpp answer. The calls are the kernel's: their answers
-- are arguments of the operations that make them.
pub mod Calls
use cannet.Common.{ℕ, Bool, List, ◌≡◌, refl, ◌⊎◌, inl, inr, ◌||◌, ◌==◌, if◌then◌else◌}

-- A byte count, or -1 with an errno.
pub data IoResult : Type 0 where
  failed : ℕ → IoResult
  count : ℕ → IoResult

-- What readv(2) answers: an errno, or the bytes that it stored in the blocks, in order.
pub data Received : Type 0 where
  read_failed : ℕ → Received
  bytes_in : List ℕ → Received

abbrev pub eagain : ℕ
eagain = 11

-- EWOULDBLOCK is EAGAIN.
abbrev pub ewouldblock : ℕ
ewouldblock = 11

abbrev pub emfile : ℕ
emfile = 24

abbrev pub epipe : ℕ
epipe = 32

abbrev pub econnreset : ℕ
econnreset = 104

-- ECONNABORTED, EINTR, EPERM and EMFILE, the errors of accept4(2) that `accept` expects.
unfoldable pub is_expected : ℕ → Bool
is_expected errno = errno == 103 || (errno == 4 || (errno == 1 || errno == emfile))

-- What `accept` returns for an answer of accept4(2), and the errno that it leaves: one that is not
-- expected is logged, and the logging may leave any, `after_log`.
unfoldable pub accept : (ℕ → ℕ) → IoResult → IoResult
unfolding is_expected
accept after_log (count connfd) = count connfd
accept after_log (failed errno) =
    if errno == eagain || is_expected errno then failed errno else failed (after_log errno)

-- getSocketError, from the answer of getsockopt(2): the errno where it fails, or the value.
unfoldable pub get_socket_error : IoResult → ℕ
get_socket_error (failed errno) = errno
get_socket_error (count optval) = optval

pub IoResult-cases : (r : IoResult) → ((errno : ℕ) × (r ≡ failed errno)) ⊎ ((n : ℕ) × (r ≡ count n))
IoResult-cases (failed errno) = inl (errno, refl)
IoResult-cases (count n) = inr (n, refl)
