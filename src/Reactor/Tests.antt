-- ===== src/Reactor/Tests.antt =====
-- net/TcpServer.cpp, from accept4(2) to the connection on its loop: two threads and three connections.
use cannet.Common.{
  ℕ, ◌≡◌, refl, inl, inr, Bool, true, false, none, some, List, [], ◌∷◌, map, Returns, arith,
}
use cannet.SocketOps.{IoResult, failed, count, accept}
use cannet.Buffer.{Buffer}
use cannet.EventLoop
use cannet.EventLoopThreadPool.RoundRobin.{IsServing, rotation}
use cannet.Epoll.Connections.{Connections, Fresh}
use cannet.Epoll.Ownership.{IsOwned, opened_after}
use cannet.TcpConnection.Control.{make_connection}
use cannet.TcpServer.{TcpServer, Answers, is_last}
use cannet.TcpServer.Accept.{share}
use cannet.Reactor.{creations, accept_and_turn}
use cannet.Reactor.Arrivals.{Serves, accept_and_turn-Serves}

abbrev server : TcpServer
server = record {
  pool = record { base_loop = 0; started = true; num_threads = 2; next = 1; loops = 1 ∷ 2 ∷ [] };
  started = true;
  loops = λ j. EventLoop.create;
  idle_fd = some 3;
  closed = [];
  listening = true;
}

server-IsServing : IsServing server.pool
server-IsServing = record {
  started = refl;
  sized = refl;
  within = omega arith;
  small = omega arith;
}

abbrev answer : IoResult → Answers
answer r = record {
  accepted = r;
  after_log = λ errno. errno;
  idle_accepted = none;
  reopened = none;
}

abbrev answers : List Answers
answers = answer (count 10) ∷ answer (count 11) ∷ answer (count 12) ∷ answer (failed 11) ∷ []

abbrev empty : Buffer
empty = record { bytes = 0 ∷ 0 ∷ []; reader_index = 0; writer_index = 0 }

abbrev fresh : ℕ → Fresh
fresh fd = record { has_write_complete = false; input = empty; output = empty }

abbrev unused : Connections
unused = record {
  object = λ i. make_connection 0 false empty empty;
  fresh = 0;
  connections = λ fd. none;
  pool = [];
}

unused-IsOwned : IsOwned unused
unused-IsOwned = record {
  held = λ fd i slot. cc;
  once = λ i. omega arith;
  below = λ i. inl refl;
  no_null = refl;
}

abbrev nothing_open : ℕ → Bool
nothing_open fd = false

accept_and_turn-Serves_example : Returns (accept_and_turn answers fresh 2 unused server) (λ r.
    (ls : List ℕ) × (map some ls ≡ rotation (1 ∷ 2 ∷ []) 2 1 3)
    × Serves (opened_after (creations fresh (share 2 ls (10 ∷ 11 ∷ 12 ∷ []))) nothing_open) r)
unfolding accept EventLoop.create is_last
accept_and_turn-Serves_example =
    accept_and_turn-Serves answers fresh 2 unused server nothing_open server-IsServing
      (inr (inr (inr (inl refl)))) refl unused-IsOwned (λ fd. refl) (refl, (refl, (refl, tt)))
