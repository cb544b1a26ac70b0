-- ===== src/TcpConnection/Lifecycle.antt =====
-- The states of a connection of net/TcpConnection.h.
use cannet.Common.{
  ℕ, ◌≡◌, ◌≢◌, refl, ◌⊎◌, Bool, true, false, Option, none, some, List, [], ◌∷◌, ◌++◌, arith,
  Returns, ◌>>=◌, ◌<◌,
}
use cannet.SocketOps.{IoResult, count, Received}
use cannet.Channel.{is_none_event, is_reading, is_writing}
use cannet.Buffer.{Buffer, read_fd, readable_bytes}
use cannet.TcpConnection.{
  Connection, State, disconnected, connecting, connected, disconnecting, FileAnswer, close_callback,
  shutdown_in_loop, handle_write,
}
use cannet.Buffer.Validity.{IsValid}
use cannet.Buffer.Contents.{contents}
use cannet.TcpConnection.Appending.{stream, IsSound}
use cannet.TcpConnection.Drain.{drained-IsShut}
use cannet.TcpConnection.Control.{
  is_alive, send, shutdown, request_force_close, connect_destroyed, handle_close,
  force_close_in_loop, connect_established, handle_read, connect_reset,
}

-- The ways a state may change without the connection being reused.
abbrev pub may_change : State → State → Bool
may_change disconnected disconnected = true
may_change connecting connecting = true
may_change connecting connected = true
may_change connected connected = true
may_change connected disconnecting = true
may_change connected disconnected = true
may_change disconnecting disconnecting = true
may_change disconnecting disconnected = true
may_change _ _ = false

-- The call fails an assert, or changes the state in one of these ways.
abbrev pub MayChange : Connection → Option Connection → Type 0
MayChange c none = Unit
MayChange c (some c') = may_change c.state c'.state ≡ true

-- None of `shutdown`, `forceClose`, `forceCloseInLoop`, `connectEstablished`, `connectDestroyed` and
-- `handleClose` takes a connection back to an earlier state, where its asserts hold: `connected` is
-- entered from `connecting` only, and a closed connection stays closed.
pub calls-MayChange :
    (c : Connection)
    → MayChange c (some (shutdown c))
      × MayChange c (some (request_force_close c))
      × MayChange c (force_close_in_loop c)
      × MayChange c (connect_established c)
      × MayChange c (connect_destroyed c)
      × MayChange c (handle_close c)
unfolding shutdown shutdown_in_loop request_force_close force_close_in_loop connect_established
    connect_destroyed handle_close
calls-MayChange c =
    (ground arith, ground arith, ground arith, ground arith, ground arith, ground arith)

-- A connection that is open or being closed is closed for good: its channel has no events and has
-- left the loop, and of the callbacks only the close callback is made.
pub handle_close_lem :
    (c : Connection)
    → is_alive c.state ≡ true
    → Returns (handle_close c) (λ c'.
      (c'.state ≡ disconnected)
      × (is_none_event c'.channel ≡ true)
      × (c'.channel.added_to_loop ≡ false)
      × (c'.tasks ≡ c.tasks ++ (close_callback ∷ [])))
unfolding handle_close is_none_event
handle_close_lem c h = ground arith

-- After a hang-up the channel makes the close callback and then the read callback: where the read
-- finds the end of the stream, the connection is closed once more, and the assert fails.
pub handle_read_after_close :
    (readv : ℕ → Received) (input : Buffer) (c : Connection)
    → is_alive c.state ≡ true
    → read_fd readv c.input ≡ some (count 0, input)
    → (handle_close c >>= handle_read readv) ≡ none
unfolding handle_close handle_read
handle_read_after_close readv input c h e = ground (arith, e)

-- From another thread a message for an open connection is dropped; for one that is not open it is
-- handed to the loop.
pub send_other_thread :
    (answer : IoResult) (file_answer : FileAnswer) (message : List ℕ) (c : Connection)
    → Returns (send false answer file_answer message c) (λ r.
      (stream r.0 ≡ stream c)
      × (((c.state ≡ connected) × (r.1 ≡ [])) ⊎ ((c.state ≢ connected) × (r.1 ≡ message ∷ []))))
unfolding send
send_other_thread answer file_answer message c = ground arith

-- A connection that is reset and established again is open, empty on both sides and reading.
pub connect_reset-connect_established :
    (sock_fd : ℕ) (c : Connection)
    → IsValid c.input
    → IsValid c.output
    → Returns (connect_established (connect_reset sock_fd c)) (λ c'.
      IsSound c'
      × (c'.state ≡ connected)
      × (contents c'.input ≡ [])
      × (contents c'.output ≡ [])
      × (c'.channel.fd ≡ sock_fd)
      × (is_reading c'.channel ≡ true)
      × (is_writing c'.channel ≡ false))
unfolding connect_established connect_reset is_reading is_writing readable_bytes
connect_reset-connect_established sock_fd c v w = ground arith

-- On an open connection with no file to send, whose bytes wait for a write event: `shutdown` leaves the
-- write side open, and the write event that sends the last of the bytes shuts it down.
pub shutdown-handle_write :
    (file_answer : FileAnswer) (c : Connection)
    → IsValid c.output
    → c.state ≡ connected
    → is_writing c.channel ≡ true
    → 0 < readable_bytes c.output
    → c.send_file ≡ none
    → ((shutdown c).is_shut ≡ c.is_shut)
      × Returns (handle_write (count (readable_bytes c.output)) file_answer (shutdown c)) (λ c'.
        (c'.is_shut ≡ true) × (c'.state ≡ disconnecting) × (c'.wire ≡ c.wire ++ contents c.output))
unfolding shutdown shutdown_in_loop
shutdown-handle_write file_answer c v st w h no_file =
    let d = record c { state = disconnecting } in
    let closing : shutdown c ≡ d = ground arith in
    (ground arith, rw closing (drained-IsShut file_answer d v refl w h))
