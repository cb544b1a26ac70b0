-- ===== src/TcpServer.antt =====
-- net/TcpServer.h and net/TcpServer.cpp, on the thread of the base loop. A loop is known by a number;
-- the functor that creates the connection of a descriptor is known by the descriptor. What accept4(2)
-- and open(2) answer is an argument.
pub mod Accept
pub mod Setup
mod Tests
use cannet.Common.{
  ℕ, Bool, true, false, not, Option, none, some, List, [], ◌∷◌, ◌++◌, ◌==◌, if◌then◌else◌, ◌>>=◌,
  ◌>>◌,
}
use cannet.SocketOps.{IoResult, failed, count, eagain, emfile, accept}
use cannet.EventLoop.{EventLoop, queue_in_loop}
use cannet.EventLoopThreadPool.{EventLoopThreadPool, get_next_loop, set_thread_num}
use cannet.EventLoopThreadPool

-- `loops` holds the loops by number, `closed` the descriptors that were closed, in order.
pub record TcpServer : Type 0 where
  pub pool : EventLoopThreadPool
  pub started : Bool
  pub loops : ℕ → EventLoop
  pub idle_fd : Option ℕ
  pub closed : List ℕ
  pub listening : Bool

-- The constructor, over the loops that there are and what open(2) answers.
unfoldable pub create : ℕ → (ℕ → EventLoop) → Option ℕ → TcpServer
unfolding EventLoopThreadPool.create
create base_loop loops opened = record {
  pool = EventLoopThreadPool.create base_loop;
  started = false;
  loops = loops;
  idle_fd = opened;
  closed = [];
  listening = false;
}

-- setThreadNum, whose assert holds of every number here.
unfoldable pub set_threads : ℕ → TcpServer → TcpServer
unfolding set_thread_num
set_threads num_threads s = record s { pool = set_thread_num num_threads s.pool }

-- The loop of a number given anew.
abbrev pub set_loop : ℕ → EventLoop → (ℕ → EventLoop) → ℕ → EventLoop
set_loop i l loops j = if j == i then l else loops j

-- The functor is queued from the thread of the base loop.
unfoldable pub new_connection : ℕ → TcpServer → Option TcpServer
unfolding get_next_loop
new_connection sock_fd s = do
  r ← get_next_loop s.pool
  some (record s {
    pool = r.1;
    loops = set_loop r.0 (queue_in_loop (r.0 == s.pool.base_loop) sock_fd (s.loops r.0)) s.loops;
  })

-- close(2) of a descriptor, or of -1, which does nothing.
close_fd : Option ℕ → TcpServer → TcpServer
close_fd none s = s
close_fd (some fd) s = record s { closed = s.closed ++ (fd ∷ []) }

-- What the kernel answers in one round of acceptHandRead: accept4(2), what the logging of its error
-- leaves in errno, and, where descriptors run out, the plain accept(2) and open(2).
pub record Answers : Type 0 where
  pub accepted : IoResult
  pub after_log : ℕ → ℕ
  pub idle_accepted : Option ℕ
  pub reopened : Option ℕ

-- The branch of EMFILE: the idle descriptor makes room to take a connection and close it.
unfoldable pub out_of_files : Answers → TcpServer → TcpServer
unfolding close_fd
out_of_files a s =
    let s' = close_fd s.idle_fd s in
    let s'' = close_fd a.idle_accepted (record s' { idle_fd = a.idle_accepted }) in
    record s'' { idle_fd = a.reopened }

-- What one round does with the result of `accept`.
unfoldable pub take_result : IoResult → Answers → TcpServer → Option TcpServer
unfolding new_connection out_of_files
take_result (count conn_fd) a s = new_connection conn_fd s
take_result (failed errno) a s = some (if errno == emfile then out_of_files a s else s)

unfoldable pub accept_one : Answers → TcpServer → Option TcpServer
unfolding take_result
accept_one a s = take_result (accept a.after_log a.accepted) a s

-- The result breaks the loop.
unfoldable pub is_eagain : IoResult → Bool
is_eagain (count conn_fd) = false
is_eagain (failed errno) = errno == eagain

unfoldable pub is_last : Answers → Bool
unfolding is_eagain
is_last a = is_eagain (accept a.after_log a.accepted)

-- The loop over what the kernel answers. It is none where a fault occurs, or where the answers end
-- before the loop does.
unfoldable pub accept_hand_read : List Answers → TcpServer → Option TcpServer
unfolding accept_one is_last
accept_hand_read [] s = none
accept_hand_read (a ∷ rest) s =
    let again = (do s' ← accept_one a s; accept_hand_read rest s') in
    if is_last a then some s else again

unfoldable pub start : (ℕ → ℕ) → TcpServer → Option TcpServer
unfolding EventLoopThreadPool.start
start start_loop s =
    let begun = (do
      pool ← EventLoopThreadPool.start start_loop s.pool
      some (record s { started = true; pool = pool; listening = true })) in
    if s.started then some s else begun

-- The destructor; the assert on the thread of the loop only logs.
unfoldable pub destroy : TcpServer → TcpServer
unfolding close_fd
destroy s = close_fd s.idle_fd s
