-- ===== src/TcpConnection.antt =====
-- net/TcpConnection.h and net/TcpConnection.cpp, on the thread of the connection's loop. What the
-- system calls answer is an argument; what the connection hands to the kernel, to the loop and to
-- its callbacks is recorded in its state.
pub mod Appending
pub mod Sending
pub mod Drain
pub mod Files
pub mod Control
pub mod Dispatch
pub mod Hearing
pub mod Serving
pub mod Lifecycle
pub mod Strings
pub mod Closing
pub mod Racing
mod Tests
use cannet.Common.{
  ℕ, ◌+◌, ◌-◌, ◌≤◌, Bool, true, false, not, ◌&&◌, ◌||◌, Option, none, some, List, [], ◌∷◌, ◌++◌,
  ltb, leb, ◌==◌, if◌then◌else◌, ◌>>=◌, ◌>>◌, guard, add_size, sub_size, length, take, drop, slice,
}
use cannet.SocketOps.{IoResult, failed, count, Received, ewouldblock, epipe, econnreset}
use cannet.Events.{Events, k_none_event, k_read_event_lt, k_write_event, union, minus}
use cannet.Channel.{
  Channel, Status, added, deleted, create, channel_reset, is_writing, is_reading, is_none_event,
}
use cannet.Buffer.{
  Buffer, append, readable_bytes, peek_bytes, retrieve, retrieve_all, retrieve_all_as_string,
  read_fd,
}

pub data State : Type 0 where
  disconnected connecting connected disconnecting : State

-- A file on its way: SendFileUtil of base/File.h.
pub record SendFile : Type 0 where
  pub offset : ℕ
  pub send_len : ℕ

-- What is left to the loop or to a callback.
pub data Task : Type 0 where
  write_complete force_close connection_callback message_callback close_callback : Task

-- `wire` holds the bytes that write(2) took, `file_wire` the offset and length of each piece that
-- sendfile(2) took, `tasks` the callbacks made or queued, in order; `is_shut` is set once the write
-- side is shut down.
pub record Connection : Type 0 where
  pub state : State
  pub channel : Channel
  pub input : Buffer
  pub output : Buffer
  pub send_file : Option SendFile
  pub reading : Bool
  pub has_write_complete : Bool
  pub wire : List ℕ
  pub file_wire : List (ℕ × ℕ)
  pub tasks : List Task
  pub is_shut : Bool

-- sendfile(2) answers an errno, or a count and the offset that it left behind `offset`.
pub data FileAnswer : Type 0 where
  file_failed : ℕ → FileAnswer
  file_sent : ℕ → ℕ → FileAnswer

abbrev pub post : Task → Connection → Connection
post t c = record c { tasks = c.tasks ++ (t ∷ []) }

-- The status that Epoll::updateChannel leaves, given whether the channel asks for nothing.
abbrev pub status_after : Bool → Status → Status
status_after true added = deleted
status_after _ _ = added

-- Channel::update of the channel with its new events, as far as the connection goes.
abbrev pub updated : Channel → Channel
updated ch = record ch { added_to_loop = true; status = status_after (is_none_event ch) ch.status }

-- Epoll.enable_events and its like carry the events to the kernel.
unfoldable pub enable_events : Events → Connection → Connection
unfolding union
enable_events e c = record c {
  channel = updated (record (c.channel) { events = union c.channel.events e });
}

unfoldable pub disable_events : Events → Connection → Connection
unfolding minus
disable_events e c = record c {
  channel = updated (record (c.channel) { events = minus c.channel.events e });
}

unfoldable pub disable_all : Connection → Connection
disable_all c = record c { channel = updated (record (c.channel) { events = k_none_event }) }

-- errno of a fault that ends the sending: EPIPE or ECONNRESET, and not EWOULDBLOCK.
unfoldable pub is_fault : ℕ → Bool
is_fault errno = not (errno == ewouldblock) && (errno == epipe || errno == econnreset)

-- The file is absent, or sent to its end.
unfoldable pub file_done : Option SendFile → Bool
file_done none = true
file_done (some f) = f.send_len == 0

-- How the first part of sendInLoop ends: the bytes taken, and whether a fault occurred.
pub record Attempt : Type 0 where
  pub nwrote : ℕ
  pub remaining : ℕ
  pub fault_error : Bool
  pub conn : Connection

-- The write that sendInLoop tries at once.
unfoldable pub direct_write : IoResult → List ℕ → ℕ → Connection → Attempt
unfolding file_done is_fault
direct_write (count n) data_bytes len c =
    let remaining = sub_size len n in
    let sent = record c { wire = c.wire ++ take n data_bytes } in
    record {
      nwrote = n;
      remaining = remaining;
      fault_error = false;
      conn =
          if (remaining == 0 && c.has_write_complete) && file_done c.send_file
          then post write_complete sent
          else sent;
    }
direct_write (failed errno) data_bytes len c = record {
  nwrote = 0;
  remaining = len;
  fault_error = is_fault errno;
  conn = c;
}

unfoldable pub first_attempt : IoResult → List ℕ → ℕ → Connection → Attempt
unfolding direct_write is_writing
first_attempt answer data_bytes len c =
    if not (is_writing c.channel) && (readable_bytes c.output == 0)
    then direct_write answer data_bytes len c
    else record { nwrote = 0; remaining = len; fault_error = false; conn = c }

-- The part of sendInLoop that buffers what was not taken.
unfoldable pub buffer_rest : List ℕ → Attempt → Option Connection
unfolding is_writing enable_events
buffer_rest data_bytes a = do
  output ← append (slice data_bytes a.nwrote a.remaining) a.conn.output
  let c = record (a.conn) { output = output }
  some (if is_writing c.channel then c else enable_events k_write_event c)

-- The part of sendInLoop that starts the file. The last assert reads through `sendFile_`, which is
-- null once the file was reset: the program faults there.
unfoldable pub start_file : FileAnswer → SendFile → Connection → Option Connection
unfolding is_fault is_writing enable_events
start_file (file_sent n offset) f c =
    let send_len = sub_size f.send_len n in
    let sent = record c {
      send_file = some (record { offset = add_size offset n; send_len = send_len });
      file_wire = c.file_wire ++ ((f.offset, n) ∷ []);
    } in
    if send_len == 0 && c.has_write_complete
    then none
    else some (
        if ltb 0 send_len && not (is_writing sent.channel)
        then enable_events k_write_event sent
        else sent)
start_file (file_failed errno) f c = some (
    if (not (is_fault errno) && ltb 0 f.send_len) && not (is_writing c.channel)
    then enable_events k_write_event c
    else c)

-- The second part of sendInLoop.
unfoldable pub finish_send : FileAnswer → List ℕ → ℕ → Attempt → Option Connection
unfolding buffer_rest start_file
finish_send file_answer data_bytes len a =
    let buffered = buffer_rest data_bytes a in
    let on_file : Option Connection = elim a.conn.send_file [
      | none ↦ some a.conn
      | some f ↦ start_file file_answer f a.conn
    ] in
    (guard (leb a.remaining len)
      >> (if not a.fault_error && ltb 0 a.remaining then buffered else on_file))

-- A closed connection gives up writing.
unfoldable pub unless_disconnected : State → Connection → Option Connection → Option Connection
unless_disconnected disconnected c sent = some c
unless_disconnected _ c sent = sent

-- sendInLoop reads `len` bytes of `data.c_str()`, which has the data and a 0: it may read no more.
unfoldable pub send_in_loop : IoResult → FileAnswer → List ℕ → ℕ → Connection → Option Connection
unfolding unless_disconnected first_attempt finish_send
send_in_loop answer file_answer data_bytes len c =
    let bytes = take len (data_bytes ++ (0 ∷ [])) in
    unless_disconnected c.state c (
      guard (leb len (length data_bytes + 1))
      >> finish_send file_answer bytes len (first_attempt answer bytes len c))

unfoldable pub shutdown_in_loop : Connection → Connection
unfolding is_writing
shutdown_in_loop c = if is_writing c.channel then c else record c { is_shut = true }

unfoldable pub is_disconnecting : State → Bool
is_disconnecting disconnecting = true
is_disconnecting _ = false

-- What handleWrite does once the buffer, or the file, is through.
unfoldable pub writing_done : Connection → Connection
unfolding disable_events shutdown_in_loop is_disconnecting
writing_done c =
    let c' = disable_events k_write_event c in
    let c'' = if c'.has_write_complete then post write_complete c' else c' in
    if is_disconnecting c''.state then shutdown_in_loop c'' else c''

-- handleWrite with bytes in the output buffer.
unfoldable pub write_output : IoResult → Connection → Option Connection
unfolding writing_done
write_output (failed errno) c = some c
write_output (count n) c =
    let taken = (do
      output ← retrieve n c.output
      let c' = record c {
        output = output;
        wire = c.wire ++ take n (peek_bytes c.output (readable_bytes c.output));
      }
      some (if readable_bytes output == 0 then writing_done c' else c')) in
    if n == 0 then some c else taken

-- handleWrite with a file and an empty buffer.
unfoldable pub write_file : FileAnswer → SendFile → Connection → Connection
unfolding writing_done
write_file (file_failed errno) f c = c
write_file (file_sent n offset) f c =
    let send_len = sub_size f.send_len n in
    let c' = record c {
      send_file = some (record { offset = add_size offset n; send_len = send_len });
      file_wire = c.file_wire ++ ((f.offset, n) ∷ []);
    } in
    if n == 0
    then c
    else if send_len == 0
    then writing_done (record c' { send_file = none })
    else c'

unfoldable pub handle_write : IoResult → FileAnswer → Connection → Option Connection
unfolding write_output write_file is_writing
handle_write answer file_answer c =
    let flushed = write_output answer c in
    let on_file : Connection = elim c.send_file [
      | none ↦ c
      | some f ↦ write_file file_answer f c
    ] in
    if is_writing c.channel
    then if ltb 0 (readable_bytes c.output) then flushed else some on_file
    else some c
