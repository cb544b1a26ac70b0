-- ===== src/TcpConnection/Tests.antt =====
-- net/TcpConnection.cpp on concrete connections.
use cannet.Common.{
  ◌<◌, ◌≡◌, refl, inr, true, false, none, some, List, [], ◌∷◌, arith, Returns, replicate,
}
use cannet.SocketOps.{count}
use cannet.Events.{k_read_event_lt, k_write_event, union}
use cannet.Channel.{Channel, create, is_writing}
use cannet.Buffer.{Buffer, readable_bytes}
use cannet.TcpConnection.{Connection, connected, disconnecting, SendFile, file_failed, handle_write}
use cannet.TcpConnection.Appending.{IsSound, Appends}
use cannet.TcpConnection.Sending.{Event, sends, writable, play_all, play_all-Appends}
use cannet.TcpConnection.Control.{is_alive, shutdown}
use cannet.TcpConnection.Closing.{play_calls, play_calls-closes, closes_in, shuts, forces, closes}
use cannet.TcpConnection.Racing.{Race, race, Reach, closed_twice}
use cannet.TcpConnection.Lifecycle.{shutdown-handle_write}

abbrev empty : Buffer
empty = record { bytes = replicate 24 0; reader_index = 8; writer_index = 8 }

abbrev reading : Channel
reading = record (create 7) { events = k_read_event_lt }

abbrev idle : Connection
idle = record {
  state = connected;
  channel = reading;
  input = empty;
  output = empty;
  send_file = none;
  reading = true;
  has_write_complete = true;
  wire = [];
  file_wire = [];
  tasks = [];
  is_shut = false;
}

idle-IsSound : IsSound idle
unfolding readable_bytes
idle-IsSound = record { valid = omega arith; no_file = refl; waits = inr refl }

abbrev full : Buffer
full = record {
  bytes = 0 ∷ 0 ∷ 0 ∷ 0 ∷ 0 ∷ 0 ∷ 0 ∷ 0 ∷ 1 ∷ 2 ∷ 3 ∷ [];
  reader_index = 8;
  writer_index = 11;
}

abbrev writing : Connection
writing = record idle {
  channel = record reading { events = union k_read_event_lt k_write_event };
  output = full;
}

writing-is_writing : is_writing writing.channel ≡ true
unfolding is_writing union
writing-is_writing = refl

full-readable : 0 < readable_bytes full
unfolding readable_bytes
full-readable = omega arith

-- Two bytes are taken, one is buffered, then a send goes behind it, and a write event takes both.
abbrev script : List Event
script = sends (1 ∷ 2 ∷ 3 ∷ []) 2 ∷ sends (4 ∷ []) 9 ∷ writable 9 ∷ []

play_all-Appends_example : Returns (play_all script idle) (Appends (1 ∷ 2 ∷ 3 ∷ 4 ∷ []) idle)
play_all-Appends_example = play_all-Appends script idle idle-IsSound (λ e. cc) (omega arith)

abbrev file : SendFile
file = record { offset = 100; send_len = 50 }

abbrev behind : Connection
behind = record writing { send_file = some file }

shutdown-handle_write_example :
    ((shutdown writing).is_shut ≡ false)
    × Returns
        (handle_write (count (readable_bytes full)) (file_failed 0) (shutdown writing))
        (λ c'. (c'.is_shut ≡ true) × (c'.state ≡ disconnecting) × (c'.wire ≡ 1 ∷ 2 ∷ 3 ∷ []))
shutdown-handle_write_example =
    shutdown-handle_write (file_failed 0) writing (omega arith) refl writing-is_writing
      full-readable refl

play_calls-closes_example :
    Returns
      (play_calls (forces ∷ shuts ∷ closes ∷ closes ∷ []) idle)
      (λ c'. (is_alive c'.state ≡ false) × (closes_in c'.tasks ≡ 1))
unfolding is_alive
play_calls-closes_example = play_calls-closes (forces ∷ shuts ∷ closes ∷ closes ∷ []) idle refl

closed_twice_example : (r : Race) × Reach (race idle) r × (closes_in r.conn.tasks ≡ 2)
unfolding is_alive
closed_twice_example = closed_twice idle refl
