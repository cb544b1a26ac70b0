-- ===== src/Epoll/Connections/Tests.antt =====
-- The connections of a loop on concrete descriptors.
use cannet.Common.{
  ℕ, ◌≡◌, refl, inl, Bool, true, false, none, some, List, [], ◌∷◌, ◌>>=◌, if◌then◌else◌, ◌==◌,
  Returns, arith,
}
use cannet.Buffer.{Buffer}
use cannet.TcpConnection.{State}
use cannet.TcpConnection.Control.{
  make_connection, is_alive, connect_established, connect_reset, handle_close,
}
use cannet.Epoll.Connections.{
  Connections, Fresh, Event, accepts, closes, run, create_connection, close_connection, force_close,
  force_close_in_loop,
}
use cannet.Epoll.Ownership.{IsOwned, is_some, Matches, opened_after}
use cannet.Epoll.Placing.{IsPlaced, run-IsPlaced}
use cannet.Epoll.Reuse.{force_close_hits_next}

abbrev empty : Buffer
empty = record { bytes = 0 ∷ 0 ∷ []; reader_index = 0; writer_index = 0 }

abbrev fresh : Fresh
fresh = record { has_write_complete = false; input = empty; output = empty }

abbrev start : Connections
start = record {
  object = λ i. make_connection 0 false empty empty;
  fresh = 0;
  connections = λ fd. none;
  pool = [];
}

start-IsOwned : IsOwned start
start-IsOwned = record {
  held = λ fd i slot. cc;
  once = λ i. omega arith;
  below = λ i. inl refl;
  no_null = refl;
}

abbrev nothing_open : ℕ → Bool
nothing_open fd = false

-- Descriptor 5 is closed and comes again, while 6 is open.
abbrev events : List Event
events = accepts 5 fresh ∷ accepts 6 fresh ∷ closes 5 ∷ accepts 5 fresh ∷ []

run-start :
    Returns (run events start) (λ s. (s.connections 5 ≡ some 0) × (s.fresh ≡ 2) × (s.pool ≡ []))
unfolding run make_connection connect_established connect_reset handle_close
run-start = (refl, refl, refl)

start-IsPlaced : IsPlaced start
start-IsPlaced i lt out = absurd (omega (arith, lt))

run-IsPlaced_example :
    Returns
      (run events start)
      (λ s. IsOwned s × IsPlaced s × Matches s (opened_after events nothing_open))
run-IsPlaced_example =
    run-IsPlaced events start nothing_open start-IsOwned start-IsPlaced (λ fd. refl)
      (refl, (refl, (refl, (refl, tt))))

abbrev busy : Connections
busy = record start {
  object = λ i. record (make_connection 5 false empty empty) { state = State.connected };
  fresh = 1;
  connections = λ fd. if fd == 5 then some 0 else none;
}

busy-IsOwned : IsOwned busy
unfolding make_connection is_alive
busy-IsOwned = record {
  held = λ fd i slot. ground arith;
  once = λ i. omega arith;
  below = λ i. inl refl;
  no_null = refl;
}

force_close_hits_next_example :
    Returns (close_connection 0 (force_close 0 busy) >>= create_connection 8 fresh) (λ s.
      (is_some (s.connections 8) ≡ true)
      × Returns (force_close_in_loop 0 s) (λ s'. is_some (s'.connections 8) ≡ false))
force_close_hits_next_example = force_close_hits_next 5 8 0 fresh busy busy-IsOwned refl
