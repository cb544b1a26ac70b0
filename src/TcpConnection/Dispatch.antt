-- ===== src/TcpConnection/Dispatch.antt =====
-- Channel::handleEvent of net/Channel.cpp on the channel of a TcpConnection, with the callbacks that its
-- constructor sets: handleRead, handleWrite, handleClose and handleError. What the user's callbacks do is
-- left out: `tasks` records that they are made.
use cannet.Common.{ℕ, true, false, Option, some, List, [], ◌∷◌, ◌>>=◌}
use cannet.SocketOps.{IoResult, Received}
use cannet.Channel.{Call, close_call, error_call, read_call, write_call}
use cannet.Channel
use cannet.TcpConnection.{Connection, FileAnswer, handle_write}
use cannet.TcpConnection.Control.{handle_read, handle_close}

-- What the system calls of one handleEvent answer. handleError only logs.
pub record Replies : Type 0 where
  pub readv : ℕ → Received
  pub write : IoResult
  pub file : FileAnswer

callback : Replies → Call → Connection → Option Connection
unfolding handle_close handle_read handle_write
callback a close_call c = handle_close c
callback a error_call c = some c
callback a read_call c = handle_read a.readv c
callback a write_call c = handle_write a.write a.file c

unfoldable pub callbacks : Replies → List Call → Connection → Option Connection
unfolding callback
callbacks a [] c = some c
callbacks a (call ∷ rest) c = do c' ← callback a call c; callbacks a rest c'

-- The flag `eventHandling_` is set while the callbacks run.
unfoldable pub handle_event : Replies → Connection → Option Connection
unfolding callbacks Channel.handle_event
handle_event a c = do
  c' ←
      callbacks a (Channel.handle_event c.channel).0
        (record c { channel = record (c.channel) { event_handling = true } })
  some (record c' { channel = record (c'.channel) { event_handling = false } })
