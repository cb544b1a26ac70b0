-- ===== src/EventLoopThreadPool/Tests.antt =====
-- Three loops in turn.
use cannet.Common.{◌+◌, ◌≡◌, refl, true, [], ◌∷◌, Returns}
use cannet.EventLoopThreadPool.{EventLoopThreadPool, create, set_thread_num, start}

abbrev pool : EventLoopThreadPool
pool = record { base_loop = 0; started = true; num_threads = 3; next = 1; loops = 7 ∷ 8 ∷ 9 ∷ [] }

start-loops : Returns (start (λ i. i + 7) (set_thread_num 3 (create 0))) (λ p. p.loops ≡ pool.loops)
unfolding start set_thread_num create
start-loops = refl
