-- ===== src/Reactor.antt =====
-- How net/TcpServer.cpp, net/EventLoop.cpp and net/Epoll.cpp work together on a new connection: the
-- functor that newConnection queues in a loop is createConnection of the descriptor, on the loop's Epoll.
pub mod Arrivals
pub mod Serving
mod Tests
use cannet.Common.{ℕ, Option, none, some, List, [], ◌∷◌, length, drop, ◌>>=◌}
use cannet.EventLoop.{EventLoop, turn}
use cannet.Epoll.Connections.{Connections, Fresh, Event, accepts, run}
use cannet.TcpServer.{TcpServer, Answers, accept_hand_read}

-- A loop with the connections of its Epoll.
pub record Reactor : Type 0 where
  pub loop : EventLoop
  pub connections : Connections

-- EventLoop::createConnection of each descriptor, in a row.
abbrev pub creations : (ℕ → Fresh) → List ℕ → List Event
creations fresh [] = []
creations fresh (fd ∷ rest) = accepts fd (fresh fd) ∷ creations fresh rest

-- A turn of the loop that only functors wake: those that run in it create their connections.
unfoldable pub take_turn : (ℕ → Fresh) → Reactor → Option Reactor
unfolding turn run
take_turn fresh r = do
  let loop = turn (λ fd. []) [] r.loop
  connections ← run (creations fresh (drop (length r.loop.ran) loop.ran)) r.connections
  some (record { loop = loop; connections = connections })

-- acceptHandRead on the base loop, and then a turn of loop `j`.
unfoldable pub accept_and_turn :
    List Answers → (ℕ → Fresh) → ℕ → Connections → TcpServer → Option Reactor
unfolding accept_hand_read take_turn
accept_and_turn answers fresh j connections s = do
  s' ← accept_hand_read answers s
  take_turn fresh (record { loop = s'.loops j; connections = connections })
