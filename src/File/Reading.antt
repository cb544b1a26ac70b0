-- ===== src/File/Reading.antt =====
-- ReadSmallFile stays inside its buffer and ends it with a 0.
use cannet.Common.{
  ℕ, ◌+◌, ◌-◌, ◌≤◌, ◌≡◌, refl, ap, ◌∙◌, some, List, [], ◌∷◌, ◌++◌, length, take, write_at,
  length-write_at, slice-write_at_end, arith,
}
use cannet.SocketOps.{Received, bytes_in}
use cannet.File.{ReadSmallFile, k_file_buffer_size, read_to_buffer}

-- One read of an open file that pread(2) answers within what it is offered, one byte less than the
-- buffer has: what it stored stands in the buffer whole with a 0 behind it, and its length is the size.
pub read_to_buffer_bounds :
    (pread : ℕ → Received) (fd : ℕ) (received : List ℕ) (f : ReadSmallFile)
    → f.fd ≡ some fd
    → length f.buf ≡ k_file_buffer_size
    → pread (k_file_buffer_size - 1) ≡ bytes_in received
    → length received ≤ k_file_buffer_size - 1
    → let (err, size, f') = read_to_buffer pread f in
      (err ≡ f.err)
      × (size ≡ some (length received))
      × (take (length received + 1) f'.buf ≡ received ++ (0 ∷ []))
      × (length f'.buf ≡ k_file_buffer_size)
unfolding read_to_buffer
read_to_buffer_bounds pread fd received f e full answer room =
    let n = length received in
    let filled = write_at f.buf 0 received in
    let size = length-write_at f.buf 0 received in
    let first =
      slice-write_at_end f.buf received 0 0 0 n refl (omega arith) (omega (arith, full)) in
    let ended =
      slice-write_at_end filled (0 ∷ []) 0 n n (n + 1) (omega arith) refl
        (omega (arith, size, full)) in
    rw (e, answer)
      (
        refl,
        refl,
        ended ∙ ap (λ bytes. bytes ++ (0 ∷ [])) first,
        length-write_at filled n (0 ∷ []) ∙ (size ∙ full),
      )
