-- ===== src/Epoll/Connections.antt =====
-- The connections of net/Epoll.cpp: createConnection, removeConnection and what removeChannel does to
-- the map of connections and to the pool of used ones, on the thread of the loop. A connection object
-- is known by a number, so that a slot of the map, an entry of the pool and a queued functor share it.
mod Tests
use cannet.Common.{
  ℕ, ◌+◌, Bool, true, false, Option, none, some, List, [], ◌∷◌, ◌++◌, ◌==◌, if◌then◌else◌, ◌>>=◌,
  ◌>>◌, set_at,
}
use cannet.Buffer.{Buffer}
use cannet.TcpConnection.{Connection}
use cannet.TcpConnection.Control.{
  destroy, is_alive, make_connection, connect_established, connect_reset, handle_close,
  request_force_close,
}

-- `object` has the objects below `fresh`; a slot or an entry is none for a null pointer. The pool is
-- listed from its back.
pub record Connections : Type 0 where
  pub object : ℕ → Connection
  pub fresh : ℕ
  pub connections : ℕ → Option ℕ
  pub pool : List (Option ℕ)

-- The two empty buffers of a new connection, and whether a write-complete callback is set.
pub record Fresh : Type 0 where
  pub has_write_complete : Bool
  pub input : Buffer
  pub output : Buffer

-- With an empty pool: a new object.
unfoldable pub create_new : ℕ → Fresh → Connections → Option Connections
unfolding make_connection
create_new sock_fd f s = do
  conn ← connect_established (make_connection sock_fd f.has_write_complete f.input f.output)
  some (record s {
    object = set_at s.fresh conn s.object;
    fresh = s.fresh + 1;
    connections = set_at sock_fd (some s.fresh) s.connections;
  })

-- The object at the back of the pool is reset; `rest` is the pool without it.
unfoldable pub create_reused : ℕ → Option ℕ → List (Option ℕ) → Connections → Option Connections
create_reused sock_fd back rest s = do
  i ← back
  conn ← connect_established (connect_reset sock_fd (s.object i))
  some (record s {
    object = set_at i conn s.object;
    connections = set_at sock_fd (some i) s.connections;
    pool = rest;
  })

unfoldable pub create_connection : ℕ → Fresh → Connections → Option Connections
unfolding create_new create_reused
create_connection sock_fd f s = elim s.pool [
  | [] ↦ create_new sock_fd f s
  | back ∷ rest ↦ create_reused sock_fd back rest s
]

-- removeChannel, for the channel of a connection or any other.
unfoldable pub recycle : ℕ → Connections → Connections
recycle fd s = record s {
  connections = set_at fd none s.connections;
  pool = s.connections fd ∷ s.pool;
}

-- handleClose, whose close callback is removeConnection.
unfoldable pub close_connection : ℕ → Connections → Option Connections
unfolding recycle
close_connection i s = do
  conn ← handle_close (s.object i)
  some (recycle conn.channel.fd (record s { object = set_at i conn s.object }))

-- forceClose, which leaves forceCloseInLoop to the loop, and what the loop runs then.
unfoldable pub force_close : ℕ → Connections → Connections
force_close i s = record s { object = set_at i (request_force_close (s.object i)) s.object }

unfoldable pub force_close_in_loop : ℕ → Connections → Option Connections
unfolding close_connection
force_close_in_loop i s =
    let closed = close_connection i s in if is_alive (s.object i).state then closed else some s

-- What the loop meets: a descriptor that was accepted, and the end of a connection.
pub data Event : Type 0 where
  accepts : ℕ → Fresh → Event
  closes : ℕ → Event

unfoldable pub step : Event → Connections → Option Connections
unfolding create_connection close_connection
step (accepts fd f) s = create_connection fd f s
step (closes fd) s = do i ← s.connections fd; close_connection i s

unfoldable pub run : List Event → Connections → Option Connections
unfolding step
run [] s = some s
run (e ∷ rest) s = do s' ← step e s; run rest s'

-- A slot is reset. Its object, where nobody else holds it, is destroyed; the descriptors that this closes.
unfoldable pub reset_slot : Option ℕ → Connections → Option (List ℕ)
reset_slot none s = some []
reset_slot (some i) s = do fd ← destroy (s.object i); some (fd ∷ [])

-- The destructor but for its close of the epoll descriptor, for the keys of the map in the order in
-- which they come.
unfoldable pub destroy_all : List ℕ → Connections → Option (List ℕ)
unfolding reset_slot
destroy_all [] s = some []
destroy_all (fd ∷ fds) s = do
  closed ← reset_slot (s.connections fd) s
  later ← destroy_all fds (record s { connections = set_at fd none s.connections })
  some (closed ++ later)
