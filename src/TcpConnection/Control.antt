-- ===== src/TcpConnection/Control.antt =====
-- The calls of net/TcpConnection.cpp that open, close and steer a connection, and the reads. The
-- close callback is the one that Epoll::createConnection sets: Epoll::removeConnection, which on the
-- loop's thread calls `connectDestroyed` at once.
use cannet.Common.{
  ℕ, Bool, true, false, not, ◌||◌, Option, none, some, List, [], ◌∷◌, ◌==◌, if◌then◌else◌, ◌>>=◌,
  ◌>>◌, guard, length, drop, zero, suc,
}
use cannet.SocketOps.{IoResult, failed, count, Received, get_socket_error, econnreset}
use cannet.Events.{k_read_event_lt}
use cannet.Channel
use cannet.Channel.{
  new, create, set_read_callback, set_write_callback, set_close_callback, set_error_callback,
  channel_reset, is_none_event, is_reading,
}
use cannet.Buffer.{Buffer, read_fd, readable_bytes, retrieve_all, retrieve_all_as_string}
use cannet.TcpConnection.{
  Connection, State, disconnected, connecting, connected, disconnecting, FileAnswer, force_close,
  connection_callback, message_callback, close_callback, post, enable_events, disable_events,
  disable_all, send_in_loop, shutdown_in_loop,
}

unfoldable pub is_connected : State → Bool
is_connected connected = true
is_connected _ = false

-- kConnected or kDisconnecting
unfoldable pub is_alive : State → Bool
is_alive connected = true
is_alive disconnecting = true
is_alive _ = false

unfoldable pub is_connecting : State → Bool
is_connecting connecting = true
is_connecting _ = false

unfoldable pub is_disconnected : State → Bool
is_disconnected disconnected = true
is_disconnected _ = false

-- The destructor, with that of the channel.
unfoldable pub destroy : Connection → Option ℕ
unfolding Channel.destroy
destroy c = guard (is_disconnected c.state) >> Channel.destroy c.channel

-- The constructor, over the buffers that it makes. The callbacks are set by Epoll::createConnection.
unfoldable pub make_connection : ℕ → Bool → Buffer → Buffer → Connection
unfolding create set_read_callback set_write_callback set_close_callback set_error_callback
make_connection sock_fd has_write_complete input output = record {
  state = connecting;
  channel =
      set_error_callback true (
        set_close_callback true
          (set_write_callback true (set_read_callback true (create sock_fd))));
  input = input;
  output = output;
  send_file = none;
  reading = true;
  has_write_complete = has_write_complete;
  wire = [];
  file_wire = [];
  tasks = [];
  is_shut = false;
}

-- send(std::string) on the thread of the loop, or on another. What another thread hands to the loop
-- is the second part of the result.
unfoldable pub send :
    Bool → IoResult → FileAnswer → List ℕ → Connection → Option (Connection × List (List ℕ))
unfolding is_connected
send in_loop answer file_answer message c =
    let sent = send_in_loop answer file_answer message (length message) c >>= λ c'. some (c', []) in
    if is_connected c.state
    then if in_loop then sent else some (c, [])
    else if in_loop
    then sent
    else some (c, message ∷ [])

-- The std::string that is made of a pointer: the bytes up to the first 0. Where there is none, it reads
-- past the array.
unfoldable pub c_string : List ℕ → Option (List ℕ)
c_string [] = none
c_string (zero ∷ rest) = some []
c_string (suc c ∷ rest) = do more ← c_string rest; some (suc c ∷ more)

-- send(Buffer *) on the thread of the loop, with the buffer that it leaves.
unfoldable pub send_buffer :
    IoResult → FileAnswer → Buffer → Connection → Option (Connection × Buffer)
unfolding is_connected c_string retrieve_all
send_buffer answer file_answer b c =
    let sent = (do
      message ← c_string (drop b.reader_index b.bytes)
      c' ← send_in_loop answer file_answer message (readable_bytes b) c
      some (c', retrieve_all b)) in
    if is_connected c.state then sent else some (c, b)

-- What send(Buffer *) on another thread leaves to the loop. C++ does not say which argument of
-- sendInLoop is evaluated first; the string of the first one takes the bytes out of the buffer.
unfoldable pub send_buffer_in_loop :
    Bool → IoResult → FileAnswer → Buffer → Connection → Option (Connection × Buffer)
send_buffer_in_loop length_first answer file_answer b c = do
  taken ← retrieve_all_as_string b
  let len = readable_bytes (if length_first then b else taken.1)
  c' ← send_in_loop answer file_answer taken.0 len c
  some (c', taken.1)

unfoldable pub shutdown : Connection → Connection
unfolding is_connected
shutdown c =
    if is_connected c.state then shutdown_in_loop (record c { state = disconnecting }) else c

unfoldable pub request_force_close : Connection → Connection
unfolding is_alive
request_force_close c =
    if is_alive c.state then post force_close (record c { state = disconnecting }) else c

-- Channel::remove, with the channel's own part of Epoll::removeChannel.
remove_channel : Connection → Option Connection
unfolding is_none_event
remove_channel c = do
  guard (is_none_event c.channel)
  some (record c { channel = record (c.channel) { added_to_loop = false; status = new } })

unfoldable pub connect_destroyed : Connection → Option Connection
unfolding is_connected disable_all remove_channel
connect_destroyed c = remove_channel (
    if is_connected c.state
    then post connection_callback (disable_all (record c { state = disconnected }))
    else c)

unfoldable pub handle_close : Connection → Option Connection
unfolding is_alive disable_all connect_destroyed
handle_close c = do
  guard (is_alive c.state)
  connect_destroyed (post close_callback (disable_all (record c { state = disconnected })))

unfoldable pub force_close_in_loop : Connection → Option Connection
unfolding is_alive handle_close
force_close_in_loop c = let closed = handle_close c in if is_alive c.state then closed else some c

unfoldable pub start_read_in_loop : Connection → Connection
unfolding enable_events is_reading
start_read_in_loop c =
    if not c.reading || not (is_reading c.channel)
    then record (enable_events k_read_event_lt c) { reading = true }
    else c

unfoldable pub stop_read_in_loop : Connection → Connection
unfolding disable_events is_reading
stop_read_in_loop c =
    if c.reading || is_reading c.channel
    then record (disable_events k_read_event_lt c) { reading = false }
    else c

-- startRead and stopRead, on the thread of the loop or on another, which leaves the call to the loop: the
-- second part of the result.
unfoldable pub start_read : Bool → Connection → Connection × Bool
unfolding start_read_in_loop
start_read in_thread c = if in_thread then (start_read_in_loop c, false) else (c, true)

unfoldable pub stop_read : Bool → Connection → Connection × Bool
unfolding stop_read_in_loop
stop_read in_thread c = if in_thread then (stop_read_in_loop c, false) else (c, true)

-- Whether handleError logs what getSocketError answers.
unfoldable pub handle_error : IoResult → Bool
unfolding get_socket_error
handle_error answer = not (get_socket_error answer == econnreset)

unfoldable pub connect_established : Connection → Option Connection
unfolding is_connecting enable_events
connect_established c = do
  guard (is_connecting c.state)
  some (post connection_callback (enable_events k_read_event_lt (record c { state = connected })))

-- What handleRead does with the answer of readFd; handleError only logs.
unfoldable pub after_read : IoResult × Buffer → Connection → Option Connection
unfolding handle_close
after_read (failed errno, input) c = some (record c { input = input })
after_read (count n, input) c =
    let c' = record c { input = input } in
    let closed = handle_close c' in if n == 0 then closed else some (post message_callback c')

unfoldable pub handle_read : (ℕ → Received) → Connection → Option Connection
unfolding after_read
handle_read readv c = do answer ← read_fd readv c.input; after_read answer c

unfoldable pub connect_reset : ℕ → Connection → Connection
unfolding channel_reset retrieve_all
connect_reset sock_fd c = record c {
  state = connecting;
  channel = channel_reset sock_fd c.channel;
  reading = true;
  input = retrieve_all c.input;
  output = retrieve_all c.output;
  send_file = none;
}
