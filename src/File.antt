-- ===== src/File.antt =====
-- ReadSmallFile and SendFileUtil of base/File.h and base/File.cpp. What open(2), pread(2) and fstat(2)
-- answer is an argument. WriteFile stands in FileUtil.
pub mod Reading
mod Tests
use cannet.Common.{ℕ, ◌+◌, ◌-◌, Option, none, some, List, [], ◌∷◌, ◌++◌, length, write_at}
use cannet.TcpConnection.{SendFile}
use cannet.SocketOps.{IoResult, failed, count, Received, read_failed, bytes_in}

abbrev pub k_file_buffer_size : ℕ
k_file_buffer_size = 65536

-- `fd` is none for a descriptor below 0; `err` is 0 where nothing failed.
pub record ReadSmallFile : Type 0 where
  pub fd : Option ℕ
  pub err : ℕ
  pub buf : List ℕ

-- The constructor, from what open(2) answers and what the buffer holds.
unfoldable pub open_small : IoResult → List ℕ → ReadSmallFile
open_small (count fd) buf = record { fd = some fd; err = 0; buf = write_at buf 0 (0 ∷ []) }
open_small (failed errno) buf = record { fd = none; err = errno; buf = write_at buf 0 (0 ∷ []) }

-- readToBuffer with what pread(2) answered: the error, `*size` where it is written, and the file.
after_pread : Received → ReadSmallFile → ℕ × Option ℕ × ReadSmallFile
after_pread (bytes_in received) f =
    let filled = write_at f.buf 0 received in
    (f.err, some (length received), record f { buf = write_at filled (length received) (0 ∷ []) })
after_pread (read_failed errno) f = (errno, none, f)

-- `pread` answers for the room that it is offered, one byte less than the buffer has.
unfoldable pub read_to_buffer : (ℕ → Received) → ReadSmallFile → ℕ × Option ℕ × ReadSmallFile
unfolding after_pread
read_to_buffer pread f =
    let answered = after_pread (pread (k_file_buffer_size - 1)) f in
    elim f.fd [ none ↦ (f.err, none, f) | some fd ↦ answered ]

-- SendFileUtil, from what open(2) answers. `left` is what the fields of the object held: where the
-- file cannot be opened, sendLen_ keeps it. The length is what fstat(2) says.
unfoldable pub open_send_file : IoResult → ℕ → SendFile → SendFile
open_send_file (count fd) st_size left = record { offset = 0; send_len = st_size }
open_send_file (failed errno) st_size left = record left { offset = 0 }

-- The file of no name.
unfoldable pub no_send_file : SendFile
no_send_file = record { offset = 0; send_len = 0 }
