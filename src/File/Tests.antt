-- ===== src/File/Tests.antt =====
-- A small file of two bytes.
use cannet.Common.{ℕ, ◌≡◌, refl, some, [], ◌∷◌, length, length-replicate, replicate, take, arith}
use cannet.SocketOps.{Received, bytes_in}
use cannet.File.{ReadSmallFile, k_file_buffer_size, read_to_buffer}
use cannet.File.Reading.{read_to_buffer_bounds}

-- Of any contents of the right length.
abbrev opened : ReadSmallFile
opened = record { fd = some 4; err = 0; buf = replicate k_file_buffer_size 7 }

abbrev pread : ℕ → Received
pread room = bytes_in (1 ∷ 2 ∷ [])

read_to_buffer_bounds_example :
    let (err, size, f) = read_to_buffer pread opened in
    (err ≡ 0)
    × (size ≡ some 2)
    × (take 3 f.buf ≡ 1 ∷ 2 ∷ 0 ∷ [])
    × (length f.buf ≡ k_file_buffer_size)
read_to_buffer_bounds_example =
    read_to_buffer_bounds pread 4 (1 ∷ 2 ∷ []) opened refl
      (length-replicate {A = ℕ} k_file_buffer_size 7) refl (omega arith)
