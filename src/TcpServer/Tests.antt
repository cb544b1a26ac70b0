-- ===== src/TcpServer/Tests.antt =====
-- The accept loop on concrete answers: two threads, four connections and a shortage of descriptors.
use cannet.Common.{◌++◌, ◌≡◌, refl, true, inl, inr, some, List, [], ◌∷◌, replicate, Returns, arith}
use cannet.SocketOps.{IoResult, failed, count, emfile, accept}
use cannet.EventLoop
use cannet.EventLoopThreadPool.RoundRobin.{IsServing}
use cannet.TcpServer.{TcpServer, Answers, accept_hand_read, destroy, is_last}
use cannet.TcpServer.Accept.{Hands, accept_hand_read-Hands, accept_hand_read_spins}

abbrev server : TcpServer
server = record {
  pool = record { base_loop = 0; started = true; num_threads = 2; next = 1; loops = 1 ∷ 2 ∷ [] };
  started = true;
  loops = λ j. EventLoop.create;
  idle_fd = some 3;
  closed = [];
  listening = true;
}

abbrev answer : IoResult → Answers
answer r = record {
  accepted = r;
  after_log = λ errno. errno;
  idle_accepted = some 40;
  reopened = some 3;
}

abbrev answers : List Answers
answers =
    answer (count 10)
    ∷ answer (failed emfile)
    ∷ answer (count 11)
    ∷ answer (failed 103)
    ∷ answer (count 12)
    ∷ answer (failed 11)
    ∷ []

server-IsServing : IsServing server.pool
server-IsServing = record {
  started = refl;
  sized = refl;
  within = omega arith;
  small = omega arith;
}

accept_hand_read-server : Returns (accept_hand_read answers server) (λ s.
    ((s.loops 2).functors ≡ 10 ∷ 12 ∷ [])
    × ((s.loops 1).functors ≡ 11 ∷ [])
    × (s.closed ≡ 3 ∷ 40 ∷ []))
unfolding accept_hand_read accept EventLoop.queue_in_loop EventLoop.create
accept_hand_read-server = (refl, refl, refl)

accept_hand_read-Hands_example :
    Returns (accept_hand_read answers server) (Hands 2 (10 ∷ 11 ∷ 12 ∷ []) server)
unfolding accept EventLoop.create is_last
accept_hand_read-Hands_example =
    accept_hand_read-Hands 2 answers server server-IsServing
      (inr (inr (inr (inr (inr (inl refl))))))

accept_hand_read_spins_example :
    accept_hand_read (replicate 7 (answer (failed 9)) ++ answers) server
    ≡ accept_hand_read answers server
unfolding accept
accept_hand_read_spins_example =
    accept_hand_read_spins 7 9 (answer (failed 9)) answers server refl refl (omega arith)

destroy-server : (destroy server).closed ≡ 3 ∷ []
unfolding destroy
destroy-server = refl
