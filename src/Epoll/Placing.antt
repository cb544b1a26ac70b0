-- ===== src/Epoll/Placing.antt =====
-- No connection object of net/Epoll.cpp is lost: each is in the slot of its descriptor or in the pool.
use cannet.Common.{
  ℕ, ◌<◌, ◌≡◌, ◌≢◌, refl, subst, inl, inr, Bool-cases, set_at, sym, ap, ◌∙◌, Bool, true, false,
  Option, none, some, List, [], ◌∷◌, ◌==◌, ==_iff, if◌then◌else◌, Returns, Returns-bind,
  Returns-and, arith,
}
use cannet.TcpConnection.{Connection}
use cannet.TcpConnection.Control.{handle_close}
use cannet.Epoll.Connections.{
  Connections, Fresh, create_new, create_reused, create_connection, close_connection, recycle,
  Event, accepts, closes, run,
}
use cannet.Epoll.Ownership.{
  copies, nulls, IsOwned, Opened, make-Opened, reset-Opened, handle_close-fd, is_some, is_some-slot,
  Gains, create-Gains, Loses, close-Loses, Matches, Fits, opened_after,
}

-- An object that is not in the pool is in the slot of its own descriptor.
abbrev pub IsPlaced : Connections → Type 0
IsPlaced s =
    (i : ℕ) → i < s.fresh → copies i s.pool ≡ 0 → s.connections (s.object i).channel.fd ≡ some i

is_none-slot : (o : Option ℕ) → is_some o ≡ false → o ≡ none
is_none-slot none h = refl
is_none-slot (some i) h = cc h

-- A slot with an object is not an empty one.
apart :
    (fd i : ℕ) (s : Connections) (o : Option ℕ)
    → s.connections fd ≡ o
    → o ≢ some i
    → s.connections (s.object i).channel.fd ≡ some i
    → ((s.object i).channel.fd == fd) ≡ false
apart fd i s o slot ne placed = elim (Bool-cases ((s.object i).channel.fd == fd)) [
  | inl same ↦ absurd (
      ne
        (sym slot ∙ (sym (ap s.connections ((==_iff (s.object i).channel.fd fd).0 same)) ∙ placed)))
  | inr other ↦ other
]

-- An object enters an empty slot, and the others stay.
entered :
    (fd j i : ℕ) (c : Connection) (s : Connections)
    → c.channel.fd ≡ fd
    → s.connections fd ≡ none
    → ((i == j) ≡ false → s.connections (s.object i).channel.fd ≡ some i)
    → set_at fd (some j) s.connections (set_at j c s.object i).channel.fd ≡ some i
entered fd j i c s at free placed = elim (Bool-cases (i == j)) [
  | inl same ↦ rw (same, at) (ground (arith, ==_iff fd fd, ==_iff i j))
  | inr other ↦ rw (other, apart fd i s none free (λ e. cc e) (placed other)) (placed other)
]

module _ (fd : ℕ) (f : Fresh) (s : Connections) (p : IsPlaced s)
    (free : s.connections fd ≡ none) where
  create_new-IsPlaced : s.pool ≡ [] → Returns (create_new fd f s) IsPlaced
  unfolding create_new
  create_new-IsPlaced e = Returns-bind (Opened fd) _ _ _ (make-Opened fd f) (λ c opened i lt out.
      entered fd s.fresh i c s opened.0 free
        (λ other. p i (ground (arith, lt, other, ==_iff i s.fresh)) (ap (copies i) e)))

  create_reused-IsPlaced :
      (j : ℕ) (rest : List (Option ℕ))
      → s.pool ≡ some j ∷ rest
      → Returns (create_reused fd (some j) rest s) IsPlaced
  unfolding create_reused
  create_reused-IsPlaced j rest e =
      Returns-bind (Opened fd) _ _ _ (reset-Opened fd (s.object j)) (λ c opened i lt out.
        entered fd j i c s opened.0 free (λ other. p i lt (rw (ap (copies i) e, other) out)))

  create-IsPlaced :
      (pool : List (Option ℕ))
      → IsOwned s
      → s.pool ≡ pool
      → Returns (create_connection fd f s) IsPlaced
  unfolding create_connection
  create-IsPlaced [] o e =
      let new : create_connection fd f s ≡ create_new fd f s = rw e refl in
      rw new (create_new-IsPlaced e)
  create-IsPlaced (none ∷ rest) o e = absurd (omega (arith, o.no_null, ap nulls e))
  create-IsPlaced (some j ∷ rest) o e =
      let reused : create_connection fd f s ≡ create_reused fd (some j) rest s = rw e refl in
      rw reused (create_reused-IsPlaced j rest e)

close-IsPlaced :
    (fd j : ℕ) (s : Connections)
    → IsOwned s
    → IsPlaced s
    → s.connections fd ≡ some j
    → Returns (close_connection j s) IsPlaced
unfolding close_connection recycle
close-IsPlaced fd j s o p slot =
    let h = o.held fd j slot in
    Returns-bind (λ c. c.channel.fd ≡ (s.object j).channel.fd) _ (handle_close (s.object j)) _
      (handle_close-fd (s.object j) h.2)
      (λ c same.
        let at : c.channel.fd ≡ fd = same ∙ h.1 in
        let entry : s.connections c.channel.fd ≡ some j = ap s.connections at ∙ slot in
        λ i lt out.
          let out' : copies i (some j ∷ s.pool) ≡ 0 =
            subst (λ o. copies i (o ∷ s.pool) ≡ 0) entry out in
          elim (Bool-cases (i == j)) [
            | inl same ↦ absurd (let no : ⊥ = ground (arith, same, out') in no)
            | inr other ↦
                let placed = p i lt (ground (arith, other, out')) in
                let ne : some j ≢ some i = λ e. ground (arith, e, other, ==_iff i j) in
                rw (other, at, apart fd i s (some j) slot ne placed) placed
          ])

-- From a state in which each object is in the slot of its own descriptor or in the pool, and not in
-- both, whatever is accepted and closed, where a descriptor is accepted only while it is closed and
-- closed only while it is open: no call fails, no object is lost, so that each is in its slot or in the
-- pool again, once, and each open descriptor, and no other, has a live connection of its own.
pub run-IsPlaced :
    (events : List Event) (s : Connections) (opened : ℕ → Bool)
    → IsOwned s
    → IsPlaced s
    → Matches s opened
    → Fits events opened
    → Returns
        (run events s)
        (λ s'. IsOwned s' × IsPlaced s' × Matches s' (opened_after events opened))
unfolding run
run-IsPlaced [] s opened o p m fits = (o, p, m)
run-IsPlaced (accepts fd f ∷ rest) s opened o p m fits =
    let free = is_none-slot (s.connections fd) (m fd ∙ fits.0) in
    Returns-bind (λ s'. Gains fd s s' × IsPlaced s') _ (create_connection fd f s) (run rest)
      (Returns-and (Gains fd s) IsPlaced (create_connection fd f s)
        (create-Gains fd f s s.pool o refl) (create-IsPlaced fd f s p free s.pool o refl))
      (λ s' q.
        run-IsPlaced rest s' (λ d. if d == fd then true else opened d) q.0.0 q.1
          (λ d. q.0.1 d ∙ ap (λ b. if d == fd then true else b) (m d)) fits.1)
run-IsPlaced (closes fd ∷ rest) s opened o p m fits =
    let (i, slot) = is_some-slot (s.connections fd) (m fd ∙ fits.0) in
    rw slot (
      Returns-bind (λ s'. (Loses fd s s' × (s'.pool ≡ some i ∷ s.pool)) × IsPlaced s') _
        (close_connection i s) (run rest)
        (Returns-and _ IsPlaced (close_connection i s) (close-Loses fd i s o slot)
          (close-IsPlaced fd i s o p slot))
        (λ s' q.
          run-IsPlaced rest s' (λ d. if d == fd then false else opened d) q.0.0.0 q.1
            (λ d. q.0.0.1 d ∙ ap (λ b. if d == fd then false else b) (m d)) fits.1))
