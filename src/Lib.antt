-- ===== src/Lib.antt =====
-- cannet is a Linux network library after muduo: reactors on epoll, one event loop per thread, and
-- buffered TCP connections on them, with an asynchronous logger. This library models its core and
-- proves what makes it correct.
--
-- The parts, how they interact, and where they are modelled:
--   net/Buffer.h, net/Buffer.cpp: Buffer. A byte vector with a read and a write index, which a
--     connection has two of. `find_crlf`, `retrieve`, `append`, `make_space`, `read_fd` and so on are
--     findCRLF, retrieve, append, makeSpace and readFd; `append_int` and its like are the four widths
--     of appendInt64 to appendInt8, by the number of bytes. Buffer.Validity has the invariant of the
--     indices, Buffer.Contents, Buffer.Reading and Buffer.Refinement the queue of bytes, Buffer.Ints
--     the integers, Buffer.Search the lines, Buffer.Shrink what shrink and unwrite do.
--   base/LogStream.h, base/LogStream.cpp: FixedBuffer, the array under a log line, and LogStream, the
--     overloads of `<<` (`shift` on an `Item`) with their numerals (`convert`, `convert_hex`); several of
--     them make a line (LogStream.Lines).
--   base/Logger.h, base/Logger.cpp: Logger. `log` is a statement `LOG << item << item`: the constructor
--     (`create`), the items, and the destructor (`destroy`), which hands the line to AsyncLogger.
--     Logger.Output is `output` for any number of threads, the first of which makes the asynchronous
--     logger by pthread_once, and log_exit; Logger.Keeping and Logger.Making are about what they find.
--   base/AsyncLogger.h, base/AsyncLogger.cpp: AsyncLogger. Threads put lines into FixedBuffers
--     (`append`); `round` is one turn of threadFun, which writes the buffers and recycles two of them;
--     `serve` is threadFun from its start to its end, against the lines that threads append meanwhile
--     (AsyncLogger.Bursts). AsyncLogger.Service has its start and stop, over ThreadStd and Latch.
--   base/LogFile.h, base/LogFile.cpp: LogFile, the file under the asynchronous logger with its count of
--     unflushed lines. base/FileUtil.h, base/FileUtil.cpp: FileUtil, the loop of AppendFile::append over
--     short writes, with that of WriteFile (base/File.h, base/File.cpp) beside it.
--   base/File.h, base/File.cpp: File, ReadSmallFile and the constructors of SendFileUtil.
--   base/ThreadSafeQueue.h: ThreadSafeQueue. The linked list under the thread pool's tasks, as nodes
--     on a heap; ThreadSafeQueue.Waiting is one thread in waitAndPop against any pushes.
--   base/ThreadPool.h, base/ThreadPool.cpp: ThreadPool. Any number of threads in runInThread over that
--     queue, with addTask and stop of others, as a step relation: ThreadPool.Once is about the tasks,
--     ThreadPool.Stopping about `stop`.
--   base/Thread.h, base/Thread.cpp: Thread, the handshake of `start` and the new thread over a Latch.
--     base/ThreadStd.h, base/ThreadStd.cpp: ThreadStd, the thread of the asynchronous logger.
--     base/CurrentThread.h: CurrentThread, the number of a thread, kept once it is known.
--   base/Latch.h, base/Latch.cpp: Latch. Any number of threads in wait, one step per critical section.
--   net/Channel.h, net/Channel.cpp: Events, the epoll masks bit by bit, and Channel, a descriptor with
--     the events that it asks for; `handle_event` lists the callbacks that handleEvent makes.
--   net/Epoll.h, net/Epoll.cpp: Epoll, the interest set that channels enter and leave by `enable_events`,
--     `disable_events`, `disable_all` and `remove`. The record `Kernel` is the interface of epoll_ctl(2)
--     and close(2) with the laws of their manual pages; Epoll.Tests fills it with a concrete set.
--     Epoll.Connections has the connections by descriptor and the pool of used ones: `create_connection`
--     is createConnection, `close_connection` a handleClose with removeConnection and removeChannel.
--     Connection objects are known by numbers, so that slots, pool and queued functors can share them:
--     Epoll.Ownership, Epoll.Placing and Epoll.Reuse are about who holds which. Epoll.Polling has `poll`
--     on what epoll_wait(2) answers, Epoll.Destroying the destructor on the connections that are left.
--   net/EventLoop.h, net/EventLoop.cpp: EventLoop. `queue_in_loop`, `run_functors`, `turn` and `loop`;
--     what other threads call is two steps each, between those of the loop. EventLoop.Timers has runAt,
--     runAfter and runEvery, over TimerManager.
--   net/EventLoopThread.h, net/EventLoopThread.cpp: EventLoopThread, how startLoop gets the loop that the
--     new thread has on its stack.
--   net/EventLoopThreadPool.h, net/EventLoopThreadPool.cpp: EventLoopThreadPool, which hands out its loops
--     in turn (`get_next_loop`).
--   net/TcpServer.h, net/TcpServer.cpp: TcpServer. `accept_hand_read` is acceptHandRead on what the kernel
--     answers to `accept`; `new_connection` asks the pool for a loop and queues a functor in it.
--     TcpServer.Setup has the calls that open the listening socket. Reactor puts TcpServer, EventLoop and
--     Epoll.Connections together: a functor of the accept loop makes its connection in the turn of its loop.
--     Reactor.Serving is the turn of a loop over the returned events, from epoll_wait(2) to the callbacks of
--     each connection.
--   net/Timer.h, net/TimerManager.h, net/TimerManager.cpp: TimerManager. The queue of timers as its
--     sorted list, `get_expired`, `reset` and `handle_read`, with callbacks that add and cancel timers.
--     TimerManager.Soundness and .Expiring have the invariant of the queue, .Arming that of what
--     timerfd_settime(2) is called for, .Reachable both for every run.
--   net/TcpConnection.h, net/TcpConnection.cpp, SendFileUtil of base/File.h: TcpConnection has the state
--     and the sending side (`send_in_loop`, `handle_write`), TcpConnection.Control the rest.
--     TcpConnection.Dispatch is handleEvent of its Channel with the callbacks that the constructor sets,
--     TcpConnection.Serving what one such call does. TcpConnection.Closing plays shutdown and forceClose on
--     the thread of the loop, TcpConnection.Racing forceClose on another thread. A connection
--     reads into one Buffer and writes from another, and steers its Channel. What it hands to the kernel
--     and to its callbacks is recorded in its state.
--   net/SocketOps.h, net/SocketOps.cpp: SocketOps has `accept` and getSocketError, the answers of read,
--     readv and write, and the errno values. SocketOps.Calls has the functions that set a socket up and
--     take it down, with the calls that they make.
--   Common passes on the names that all share: size_t arithmetic with its wrap-around, lists, options.
--
-- Conventions. A failed assert, the length_error of a vector and the use of a null pointer are `none`;
-- callbacks add timers in a build without asserts, since addTimer has one that always fails.
-- A size_t keeps its wrap-around modulo 2 ^ 64, an int is a ℤ; the count of LogFile, the descriptors and
-- the sequence numbers are natural numbers. What system calls answer is an argument of the definitions,
-- and so are the text that snprintf makes of a double, the time in a log line, the array that `new`
-- leaves uninitialised, and what callbacks do. A critical section is one step.
-- Bounds and fuel. The digit loops of LogStream run on 20 rounds of fuel, which are enough since
-- 2 ^ 64 < 10 ^ 20. The loops of AppendFile::append and WriteFile::append run on one round more than the
-- line has bytes: each round takes a byte or ends the loop. acceptHandRead runs on the list of what the
-- kernel answers, and is none where that ends before the loop does. All other loops are structural. Where
-- memory must last, a theorem has the sum of the sizes below the maximal size of a vector as its hypothesis.
--
-- Not modelled: the wrappers of read, write and their like (net/SocketOps.cpp), which only pass on what
-- the system answers; destructors that only close or join; the setters of user callbacks, and getters; the
-- map of channels in net/Epoll.cpp, which only asserts read; what the constructor and the destructor of
-- EventLoop do to the kernel and to the pointer of the thread to its loop; what the kernel makes of a time
-- that timerfd_settime(2) is given; the interleaving of a connection with other threads beyond what their
-- calls leave to its loop and beyond forceClose; what the callbacks of a user do to their connection; and
-- capacity() of a vector, the memory orders of atomics and real time.
pub mod Common
pub mod SocketOps
pub mod Buffer
pub mod FixedBuffer
pub mod LogStream
pub mod Events
pub mod Channel
pub mod Epoll
pub mod TimerManager
pub mod TcpConnection
pub mod EventLoop
pub mod AsyncLogger
pub mod Logger
pub mod ThreadSafeQueue
pub mod ThreadPool
pub mod EventLoopThread
pub mod EventLoopThreadPool
pub mod TcpServer
pub mod Reactor
pub mod FileUtil
pub mod LogFile
pub mod File
pub mod Latch
pub mod CurrentThread
pub mod ThreadStd
pub mod Thread
