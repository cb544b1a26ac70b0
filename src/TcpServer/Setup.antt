-- ===== src/TcpServer/Setup.antt =====
-- The listening socket of net/TcpServer.cpp: what the constructor and acceptSocketListen ask of the
-- kernel. Whatever it answers, they go on.
use cannet.Common.{
  ℕ, ◌+◌, ◌≡◌, refl, ap, ◌∙◌, true, Option, List, [], ◌∷◌, ◌++◌, append_assoc, arith,
}
use cannet.SocketOps.{IoResult, failed, count}
use cannet.SocketOps.Calls.{
  Trace, SysCall, stream_socket, binds, listens, sets, reuse_addr, reuse_port, make_call,
  log_failure, fd_of, create_stream_nonblocking_or_die, bind_or_die, listen_or_die, set_reuse_addr,
  set_reuse_port,
}

-- The answers to the calls, in order; that to SO_REUSEADDR is not looked at.
pub record Kernel : Type 0 where
  pub socket : IoResult
  pub reuse_port : IoResult
  pub bind : IoResult
  pub listen : IoResult

-- The constructor.
unfoldable pub open_acceptor : Kernel → ℕ → Trace → Option ℕ × Trace
unfolding create_stream_nonblocking_or_die set_reuse_addr set_reuse_port bind_or_die
open_acceptor k addr t =
    let (fd, t') = create_stream_nonblocking_or_die k.socket t in
    (
      fd,
      bind_or_die k.bind fd addr (set_reuse_port k.reuse_port fd true (set_reuse_addr fd true t')),
    )

-- acceptSocketListen, once `start` runs it.
unfoldable pub accept_socket_listen : Kernel → Option ℕ → Trace → Trace
unfolding listen_or_die
accept_socket_listen k fd t = listen_or_die k.listen fd t

abbrev pub failures : IoResult → ℕ
failures (failed errno) = 1
failures (count n) = 0

-- These calls were made, and so many lines logged.
abbrev pub Did : List SysCall → ℕ → Trace → Trace → Type 0
Did calls n t t' = (t'.calls ≡ t.calls ++ calls) × (t'.errors ≡ t.errors + n)

Did-trans :
    (xs ys : List SysCall) (m n : ℕ) (t t' t'' : Trace)
    → Did xs m t t'
    → Did ys n t' t''
    → Did (xs ++ ys) (m + n) t t''
Did-trans xs ys m n t t' t'' p q =
    (q.0 ∙ (ap (λ c. c ++ ys) p.0 ∙ append_assoc t.calls xs ys), omega (arith, p.1, q.1))

make_call-Did : (call : SysCall) (t : Trace) → Did (call ∷ []) 0 t (make_call call t)
unfolding make_call
make_call-Did call t = (refl, omega arith)

logged-Did :
    (r : IoResult) (call : SysCall) (t : Trace)
    → Did (call ∷ []) (failures r) t (log_failure r (make_call call t))
unfolding make_call log_failure
logged-Did (failed errno) call t = (refl, refl)
logged-Did (count n) call t = (refl, omega arith)

-- Whatever fails, the socket is made, both of its flags are set, it is bound and it listens, in this
-- order and on whatever descriptor the first call answered, -1 included; each failure but that of
-- SO_REUSEADDR is one line in the log, and nothing else.
pub listener_calls :
    (k : Kernel) (addr : ℕ) (t : Trace)
    → let (fd, t') = open_acceptor k addr t in
      (fd ≡ fd_of k.socket)
      × Did
          (stream_socket
            ∷ sets fd reuse_addr 1
            ∷ sets fd reuse_port 1
            ∷ binds fd addr
            ∷ listens fd
            ∷ [])
          (failures k.socket
            + (0 + (failures k.reuse_port + (failures k.bind + failures k.listen))))
          t
          (accept_socket_listen k fd t')
unfolding open_acceptor accept_socket_listen
listener_calls k addr t =
    let fd = fd_of k.socket in
    let made = log_failure k.socket (make_call stream_socket t) in
    let reused = make_call (sets fd reuse_addr 1) made in
    let shared = log_failure k.reuse_port (make_call (sets fd reuse_port 1) reused) in
    let bound = log_failure k.bind (make_call (binds fd addr) shared) in
    let listening = log_failure k.listen (make_call (listens fd) bound) in
    let last =
      Did-trans (binds fd addr ∷ []) (listens fd ∷ []) (failures k.bind) (failures k.listen) shared
        bound listening (logged-Did k.bind (binds fd addr) shared)
        (logged-Did k.listen (listens fd) bound) in
    let port =
      Did-trans (sets fd reuse_port 1 ∷ []) (binds fd addr ∷ listens fd ∷ [])
        (failures k.reuse_port) (failures k.bind + failures k.listen) reused shared listening
        (logged-Did k.reuse_port (sets fd reuse_port 1) reused) last in
    let addresses =
      Did-trans (sets fd reuse_addr 1 ∷ []) (sets fd reuse_port 1 ∷ binds fd addr ∷ listens fd ∷ [])
        0 (failures k.reuse_port + (failures k.bind + failures k.listen)) made reused listening
        (make_call-Did (sets fd reuse_addr 1) made) port in
    (
      refl,
      Did-trans (stream_socket ∷ [])
          (sets fd reuse_addr 1 ∷ sets fd reuse_port 1 ∷ binds fd addr ∷ listens fd ∷ [])
          (failures k.socket) (0 + (failures k.reuse_port + (failures k.bind + failures k.listen)))
          t made listening (logged-Did k.socket stream_socket t) addresses,
    )
