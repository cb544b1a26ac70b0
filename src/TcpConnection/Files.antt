-- ===== src/TcpConnection/Files.antt =====
-- The file that net/TcpConnection.cpp sends behind the bytes.
use cannet.Common.{
  take-append, refl, [], ◌∷◌, ℕ, ◌+◌, ◌-◌, ◌<◌, ◌≡◌, true, false, none, some, List, arith, Returns,
  length, size_mod,
}
use cannet.SocketOps.{IoResult, count}
use cannet.Channel.{is_writing}
use cannet.Buffer.{readable_bytes}
use cannet.TcpConnection.{
  Connection, connected, SendFile, file_sent, handle_write, send_in_loop, finish_send,
  first_attempt, direct_write, start_file, write_file, unless_disconnected,
}

-- sendfile(2) moves the offset by the bytes that it took, and handleWrite moves it again: the next
-- piece starts that many bytes too far on.
pub handle_write_skips :
    (answer : IoResult) (f : SendFile) (n : ℕ) (c : Connection)
    → is_writing c.channel ≡ true
    → readable_bytes c.output ≡ 0
    → c.send_file ≡ some f
    → 0 < n
    → n < f.send_len
    → f.send_len < size_mod
    → f.offset + n + n < size_mod
    → Returns (handle_write answer (file_sent n (f.offset + n)) c) (λ c'.
      c'.send_file ≡ some (record { offset = f.offset + n + n; send_len = f.send_len - n }))
unfolding handle_write write_file
handle_write_skips answer f n c w e g h k small room = rw (w, e, g, handle_write) (ground arith)

-- The whole file went out with the bytes in front of it, and a write-complete callback is set: the
-- file is reset, and the assert behind it reads through the null pointer.
pub send_in_loop_faults :
    (data_bytes : List ℕ) (f : SendFile) (offset : ℕ) (c : Connection)
    → c.state ≡ connected
    → is_writing c.channel ≡ false
    → readable_bytes c.output ≡ 0
    → c.send_file ≡ some f
    → c.has_write_complete ≡ true
    → length data_bytes < size_mod
    → f.send_len < size_mod
    → send_in_loop
        (count (length data_bytes))
        (file_sent f.send_len offset)
        data_bytes
        (length data_bytes)
        c
      ≡ none
unfolding send_in_loop finish_send first_attempt direct_write start_file unless_disconnected
send_in_loop_faults data_bytes f offset c st w e g cb small small' =
    rw (st, w, e, g, cb, take-append (length data_bytes) data_bytes (0 ∷ []) refl, send_in_loop)
      (ground arith)
