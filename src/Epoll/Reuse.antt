-- ===== src/Epoll/Reuse.antt =====
-- A queued forceClose of net/TcpConnection.cpp outlives its connection, whose object the pool of
-- net/Epoll.cpp gives to the next one.
use cannet.Common.{
  ℕ, ◌≡◌, refl, ap, true, false, some, ◌>>=◌, Returns, Returns-bind, Returns-map, arith,
}
use cannet.TcpConnection.{Connection}
use cannet.TcpConnection.Control.{is_alive, request_force_close}
use cannet.Epoll.Connections.{
  Connections, Fresh, create_reused, create_connection, close_connection, force_close,
  force_close_in_loop,
}
use cannet.Epoll.Ownership.{IsOwned, is_some, create_reused-Gains, close-Loses}

request-alive :
    (c : Connection)
    → is_alive c.state ≡ true
    → (is_alive (request_force_close c).state ≡ true)
      × ((request_force_close c).channel.fd ≡ c.channel.fd)
unfolding request_force_close is_alive
request-alive c h = ground arith

force_close-IsOwned :
    (fd i : ℕ) (s : Connections) → IsOwned s → s.connections fd ≡ some i → IsOwned (force_close i s)
unfolding force_close
force_close-IsOwned fd i s o slot =
    let h = o.held fd i slot in
    let r = request-alive (s.object i) h.2 in
    record {
      held = λ fd' j slot'. ground (arith, o.held fd' j slot', r);
      once = o.once;
      below = o.below;
      no_null = o.no_null;
    }

-- The user asks to close a connection, its peer closes it first, and the next client is accepted:
-- the client's connection is open on its descriptor until the queued forceCloseInLoop closes it.
pub force_close_hits_next :
    (fd fd' i : ℕ) (f : Fresh) (s : Connections)
    → IsOwned s
    → s.connections fd ≡ some i
    → Returns (close_connection i (force_close i s) >>= create_connection fd' f) (λ s'.
      (is_some (s'.connections fd') ≡ true)
      × Returns (force_close_in_loop i s') (λ s''. is_some (s''.connections fd') ≡ false))
unfolding create_connection force_close_in_loop force_close
force_close_hits_next fd fd' i f s o slot =
    Returns-bind _ _ (close_connection i (force_close i s)) (create_connection fd' f)
      (close-Loses fd i (force_close i s) (force_close-IsOwned fd i s o slot) slot)
      (λ s1 p.
        let reused : create_connection fd' f s1 ≡ create_reused fd' (some i) s.pool s1 =
          rw p.1 refl in
        rw reused (
          Returns-map _ _ (create_reused fd' (some i) s.pool s1)
            (create_reused-Gains fd' i s.pool s1 p.0.0 p.1)
            (λ s2 q.
              let h = q.0.0.held fd' i q.1 in
              let closed = close-Loses fd' i s2 q.0.0 q.1 in
              (
                ap is_some q.1,
                rw h.2 (
                    Returns-map _ _ (close_connection i s2) closed
                      (λ s3 r. ground (arith, r.0.1 fd'))),
              ))))
