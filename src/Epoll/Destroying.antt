-- ===== src/Epoll/Destroying.antt =====
-- The destructor of net/Epoll.cpp on the connections that are left.
use cannet.Common.{ℕ, Bool, false, ◌||◌, List, [], ◌∷◌}
use cannet.Epoll.Connections.{Connections}
use cannet.Epoll.Ownership.{is_some}

abbrev any_open : List ℕ → Connections → Bool
any_open [] s = false
any_open (fd ∷ fds) s = is_some (s.connections fd) || any_open fds s
