-- ===== src/Epoll/Ownership.antt =====
-- Who owns the connection objects of net/Epoll.cpp: a slot of the map or the pool, and never two.
use cannet.Common.{
  ℕ, suc, ◌≤◌, ◌<◌, ◌≡◌, refl, sym, ap, ◌∙◌, ◌⊎◌, Bool, true, false, Option, none, some, List, [],
  ◌∷◌, ◌==◌, if◌then◌else◌, Returns, Returns-bind, Returns-map, arith,
}
use cannet.TcpConnection.{Connection}
use cannet.TcpConnection.Control.{
  is_alive, make_connection, connect_established, connect_reset, handle_close,
}
use cannet.Epoll.Connections.{
  Connections, Fresh, create_new, create_reused, create_connection, close_connection, Event,
  accepts, closes, run,
}

-- How often an object stands in the pool, and how many null pointers do.
abbrev pub copies : ℕ → List (Option ℕ) → ℕ
copies i [] = 0
copies i (none ∷ rest) = copies i rest
copies i (some j ∷ rest) = if i == j then suc (copies i rest) else copies i rest

abbrev pub nulls : List (Option ℕ) → ℕ
nulls [] = 0
nulls (none ∷ rest) = suc (nulls rest)
nulls (some j ∷ rest) = nulls rest

-- An object in the slot of its own descriptor: alive, and not in the pool.
abbrev pub Held : Connections → ℕ → ℕ → Type 0
Held s fd i =
    (i < s.fresh)
    × ((s.object i).channel.fd ≡ fd)
    × (is_alive (s.object i).state ≡ true)
    × (copies i s.pool ≡ 0)

pub record IsOwned (s : Connections) : Type 0 where
  pub held : (fd i : ℕ) → s.connections fd ≡ some i → Held s fd i
  pub once : (i : ℕ) → copies i s.pool ≤ 1
  pub below : (i : ℕ) → (copies i s.pool ≡ 0) ⊎ (i < s.fresh)
  pub no_null : nulls s.pool ≡ 0

-- A connection as it is established: open, on its descriptor.
abbrev pub Opened : ℕ → Connection → Type 0
Opened fd c = (c.channel.fd ≡ fd) × (is_alive c.state ≡ true)

pub make-Opened :
    (fd : ℕ) (f : Fresh)
    → Returns
        (connect_established (make_connection fd f.has_write_complete f.input f.output))
        (Opened fd)
unfolding connect_established make_connection is_alive
make-Opened fd f = ground arith

pub reset-Opened :
    (fd : ℕ) (c : Connection) → Returns (connect_established (connect_reset fd c)) (Opened fd)
unfolding connect_established connect_reset is_alive
reset-Opened fd c = (refl, refl)

pub handle_close-fd :
    (c : Connection)
    → is_alive c.state ≡ true
    → Returns (handle_close c) (λ c'. c'.channel.fd ≡ c.channel.fd)
unfolding handle_close
handle_close-fd c h = ground arith

abbrev pub is_some : Option ℕ → Bool
is_some none = false
is_some (some i) = true

-- The descriptors with a connection once `fd` has one.
abbrev pub Gains : ℕ → Connections → Connections → Type 0
Gains fd s s' =
    IsOwned s'
    × ((fd' : ℕ)
        → is_some (s'.connections fd') ≡ (if fd' == fd then true else is_some (s.connections fd')))

pub create_new-Gains :
    (fd : ℕ) (f : Fresh) (s : Connections)
    → IsOwned s
    → s.pool ≡ []
    → Returns (create_new fd f s) (Gains fd s)
unfolding create_new
create_new-Gains fd f s o e = Returns-bind (Opened fd) _ _ _ (make-Opened fd f) (λ c opened. (
  record {
    held = λ fd' i slot. ground (arith, o.held fd' i, ap (copies i) e, opened, slot);
    once = λ i. o.once i;
    below = λ i. ground (arith, o.below i);
    no_null = o.no_null;
  },
  λ fd'. ground arith,
))

pub create_reused-Gains :
    (fd i : ℕ) (rest : List (Option ℕ)) (s : Connections)
    → IsOwned s
    → s.pool ≡ some i ∷ rest
    → Returns
        (create_reused fd (some i) rest s)
        (λ s'. Gains fd s s' × (s'.connections fd ≡ some i))
unfolding create_reused
create_reused-Gains fd i rest s o e =
    Returns-bind (Opened fd) _ _ _ (reset-Opened fd (s.object i)) (λ c opened. (
      (
        record {
          held = λ fd' j slot. ground (
            arith,
            o.held fd' j,
            o.once i,
            o.below i,
            ap (copies i) e,
            ap (copies j) e,
            opened,
            slot,
          );
          once = λ j. ground (arith, o.once j, ap (copies j) e);
          below = λ j. ground (arith, o.below j, ap (copies j) e);
          no_null = ap nulls (sym e) ∙ o.no_null;
        },
        λ fd'. ground arith,
      ),
      ground arith,
    ))

pub create-Gains :
    (fd : ℕ) (f : Fresh) (s : Connections) (pool : List (Option ℕ))
    → IsOwned s
    → s.pool ≡ pool
    → Returns (create_connection fd f s) (Gains fd s)
unfolding create_connection
create-Gains fd f s [] o e =
    let new : create_connection fd f s ≡ create_new fd f s = rw e refl in
    rw new (create_new-Gains fd f s o e)
create-Gains fd f s (none ∷ rest) o e = absurd (omega (arith, o.no_null, ap nulls e))
create-Gains fd f s (some i ∷ rest) o e =
    let reused : create_connection fd f s ≡ create_reused fd (some i) rest s = rw e refl in
    rw reused (
      Returns-map _ _ (create_reused fd (some i) rest s) (create_reused-Gains fd i rest s o e)
        (λ s' p. p.0))

abbrev pub Loses : ℕ → Connections → Connections → Type 0
Loses fd s s' =
    IsOwned s'
    × ((fd' : ℕ)
        → is_some (s'.connections fd') ≡ (if fd' == fd then false else is_some (s.connections fd')))

pub close-Loses :
    (fd i : ℕ) (s : Connections)
    → IsOwned s
    → s.connections fd ≡ some i
    → Returns (close_connection i s) (λ s'. Loses fd s s' × (s'.pool ≡ some i ∷ s.pool))
unfolding close_connection
close-Loses fd i s o slot =
    let h = o.held fd i slot in
    Returns-bind (λ c. c.channel.fd ≡ (s.object i).channel.fd) _ (handle_close (s.object i)) _
      (handle_close-fd (s.object i) h.2)
      (λ c same.
        let at : c.channel.fd ≡ fd = same ∙ h.1 in
        let entry : s.connections c.channel.fd ≡ some i = ap s.connections at ∙ slot in
        (
          (
            record {
              held = λ fd' j slot'. rw entry (ground (arith, at, o.held fd' j, h, slot'));
              once = λ j. rw entry (ground (arith, o.once j, h));
              below = λ j. rw entry (ground (arith, o.below j, h));
              no_null = rw entry o.no_null;
            },
            λ fd'. ground (arith, at),
          ),
          rw entry refl,
        ))

-- Whether each descriptor is open.
abbrev pub Matches : Connections → (ℕ → Bool) → Type 0
Matches s opened = (fd : ℕ) → is_some (s.connections fd) ≡ opened fd

-- A descriptor that is accepted was not open, and one that is closed was.
abbrev pub Fits : List Event → (ℕ → Bool) → Type 0
Fits [] opened = Unit
Fits (accepts fd f ∷ rest) opened =
    (opened fd ≡ false) × Fits rest (λ d. if d == fd then true else opened d)
Fits (closes fd ∷ rest) opened =
    (opened fd ≡ true) × Fits rest (λ d. if d == fd then false else opened d)

abbrev pub opened_after : List Event → (ℕ → Bool) → ℕ → Bool
opened_after [] opened = opened
opened_after (accepts fd f ∷ rest) opened =
    opened_after rest (λ d. if d == fd then true else opened d)
opened_after (closes fd ∷ rest) opened =
    opened_after rest (λ d. if d == fd then false else opened d)

pub is_some-slot : (o : Option ℕ) → is_some o ≡ true → (i : ℕ) × (o ≡ some i)
is_some-slot none h = cc
is_some-slot (some i) h = (i, refl)

-- From an owned state, whatever is accepted and closed, where a descriptor is accepted only while it is
-- closed and closed only while it is open: no call fails, each open descriptor, and no other, has a
-- live connection of its own, and the pool holds each of its objects once.
pub run-IsOwned :
    (events : List Event) (s : Connections) (opened : ℕ → Bool)
    → IsOwned s
    → Matches s opened
    → Fits events opened
    → Returns (run events s) (λ s'. IsOwned s' × Matches s' (opened_after events opened))
unfolding run
run-IsOwned [] s opened o m fits = (o, m)
run-IsOwned (accepts fd f ∷ rest) s opened o m fits =
    Returns-bind (Gains fd s) _ (create_connection fd f s) (run rest)
      (create-Gains fd f s s.pool o refl)
      (λ s' p.
        run-IsOwned rest s' (λ d. if d == fd then true else opened d) p.0
          (λ d. p.1 d ∙ ap (λ b. if d == fd then true else b) (m d)) fits.1)
run-IsOwned (closes fd ∷ rest) s opened o m fits =
    let (i, slot) = is_some-slot (s.connections fd) (m fd ∙ fits.0) in
    rw slot (
      Returns-bind (λ s'. Loses fd s s' × (s'.pool ≡ some i ∷ s.pool)) _ (close_connection i s)
        (run rest) (close-Loses fd i s o slot)
        (λ s' p.
          run-IsOwned rest s' (λ d. if d == fd then false else opened d) p.0.0
            (λ d. p.0.1 d ∙ ap (λ b. if d == fd then false else b) (m d)) fits.1))
