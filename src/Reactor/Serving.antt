-- ===== src/Reactor/Serving.antt =====
-- How net/EventLoop.cpp, net/Epoll.cpp, net/Channel.cpp and net/TcpConnection.cpp work together on what
-- epoll_wait(2) returns: poll hands out the channels, and handleEvent of each runs the callbacks of its
-- connection. The connections are known by the numbers of their channels.
mod Tests
use cannet.Common.{
  ℕ, ◌+◌, ◌≤◌, ◌≡◌, ◌≢◌, refl, sym, ap, subst, ◌∙◌, inl, inr, Bool, true, false, Option, none, some,
  List, [], ◌∷◌, map, arith, ◌==◌, ==_iff, if◌then◌else◌, ◌>>=◌, Bool-cases, Returns, Returns-bind,
  Returns-map, length, max_size, set_at,
}
use mathlib.Core.Path.{fun_ext}
use cannet.SocketOps.{read_failed}
use cannet.Events.{Events}
use cannet.Buffer.{iov_room, extrabuf_size, readable_bytes}
use cannet.Buffer.Validity.{IsValid}
use cannet.Channel.{Channel}
use cannet.Epoll.Polling.{Answer, ready, Poller, poll, poll_lem, last_returned, with_revents}
use cannet.TcpConnection.{Connection}
use cannet.TcpConnection.Appending.{IsSound, Answers}
use cannet.TcpConnection.Control.{is_alive}
use cannet.TcpConnection.Dispatch.{Replies, handle_event}
use cannet.TcpConnection.Hearing.{hangs_up, Holds, Served, Fits}
use cannet.TcpConnection.Serving.{
  HasCallbacks, answered, arrived, is_closed_by, handle_event-Served,
}

-- The active channels in turn. No channel is active twice.
unfoldable pub handle_all : List ℕ → (ℕ → Replies) → (ℕ → Connection) → Option (ℕ → Connection)
unfolding handle_event
handle_all [] a cs = some cs
handle_all (i ∷ rest) a cs = do c ← handle_event (a i) (cs i); handle_all rest a (set_at i c cs)

-- A turn of the loop up to its functors, for a loop that has the channels of its connections only.
unfoldable pub serve_events :
    Answer → (ℕ → Replies) → Poller → (ℕ → Connection) → Option (ℕ → Connection)
unfolding poll handle_all
serve_events answer a p cs =
    let (active, p') = poll answer (record p { channels = λ i. (cs i).channel }) in
    handle_all active a (λ i. record (cs i) { channel = p'.channels i })

-- What `handle_event-Served` asks for.
pub record IsReady (a : Replies) (c : Connection) : Type 0 where
  pub sound : IsSound c
  pub valid : IsValid c.input
  pub alive : is_alive c.state ≡ true
  pub room : length c.input.bytes + extrabuf_size ≤ max_size
  pub set : HasCallbacks c.channel
  pub fits : Fits (answered a c) (iov_room c.input)
  pub ok : Answers a.write (readable_bytes c.output)
  pub gone : hangs_up c.channel.revents ≡ true → (errno : ℕ) × (answered a c ≡ read_failed errno)

-- A connection with the events that were returned for it, if any were.
abbrev pub readied : Option Events → Connection → Connection
readied events c = record c { channel = with_revents events c.channel }

-- A connection before and after a turn.
abbrev pub After : Option Events → Replies → Connection → Connection → Type 0
After none a c c' = c' ≡ c
After (some events) a c c' = Holds (arrived a c) c c' × Served (is_closed_by a c) (arrived a c) c c'

abbrev pub Distinct : List (ℕ × Events) → Type 0
Distinct [] = Unit
Distinct ((i, events) ∷ rest) = (last_returned i rest ≡ none) × Distinct rest

-- What the list says of `i`, with and without its first entry.
last_returned_self :
    (j : ℕ) (events : Events) (rest : List (ℕ × Events))
    → last_returned j rest ≡ none
    → last_returned j ((j, events) ∷ rest) ≡ some events
last_returned_self j events rest h = ground (arith, h, ==_iff j j)

last_returned_other :
    (i j : ℕ) (events : Events) (rest : List (ℕ × Events))
    → (i == j) ≡ false
    → last_returned i ((j, events) ∷ rest) ≡ last_returned i rest
last_returned_other i j events rest h =
    elim (last_returned i rest)
      as (λ o.
        elim o as (λ x. Option Events) [
          | none ↦ if i == j then some events else none
          | some l ↦ some l
        ]
        ≡ o) [ none ↦ rw h | some later ↦ refl ]

-- The first connection is through, and the others are as they were.
module _ (j : ℕ) (events : Events) (rest : List (ℕ × Events)) (c : Connection) (a : ℕ → Replies)
    (cs : ℕ → Connection) (once : last_returned j rest ≡ none) where
  IsReady-rest :
      ((i : ℕ) (e : Events) → last_returned i ((j, events) ∷ rest) ≡ some e → IsReady (a i) (cs i))
      → (i : ℕ) (e : Events) → last_returned i rest ≡ some e
      → IsReady (a i) (set_at j c cs i)
  IsReady-rest h i e found = elim (Bool-cases (i == j)) [
    | inl same ↦ absurd (
        let no : ⊥ = cc (sym (ap (λ k. last_returned k rest) ((==_iff i j).0 same)), found, once) in
        no)
    | inr other ↦ rw other (h i e (last_returned_other i j events rest other ∙ found))
  ]

  After-first :
      (cs' : ℕ → Connection)
      → ((i : ℕ) → After (last_returned i rest) (a i) (set_at j c cs i) (cs' i))
      → After (some events) (a j) (cs j) c
      → (i : ℕ) → After (last_returned i ((j, events) ∷ rest)) (a i) (cs i) (cs' i)
  After-first cs' after p i = elim (Bool-cases (i == j)) [
    | inl same ↦
        let here : cs' j ≡ set_at j c cs j =
          subst (λ o. After o (a j) (set_at j c cs j) (cs' j)) once (after j) in
        let kept : cs' j ≡ c = here ∙ ground (arith, ==_iff j j) in
        subst (λ k. After (last_returned k ((j, events) ∷ rest)) (a k) (cs k) (cs' k))
          (sym ((==_iff i j).0 same))
          (subst (λ o. After o (a j) (cs j) (cs' j)) (sym (last_returned_self j events rest once))
            (subst (λ x. After (some events) (a j) (cs j) x) (sym kept) p))
    | inr other ↦
        let alone : set_at j c cs i ≡ cs i = ground (arith, other) in
        subst (λ o. After o (a i) (cs i) (cs' i)) (sym (last_returned_other i j events rest other))
          (subst (λ x. After (last_returned i rest) (a i) x (cs' i)) alone (after i))
  ]

handle_all-After :
    (returned : List (ℕ × Events)) (a : ℕ → Replies) (cs : ℕ → Connection)
    → Distinct returned
    → ((i : ℕ) (events : Events) → last_returned i returned ≡ some events → IsReady (a i) (cs i))
    → Returns
        (handle_all (map (λ r. r.0) returned) a cs)
        (λ cs'. (i : ℕ) → After (last_returned i returned) (a i) (cs i) (cs' i))
unfolding handle_all
handle_all-After [] a cs d h = λ i. refl
handle_all-After ((j, events) ∷ rest) a cs (once, d) h =
    let q = h j events (last_returned_self j events rest once) in
    Returns-bind (After (some events) (a j) (cs j)) _ (handle_event (a j) (cs j)) _
      (handle_event-Served (a j) (cs j) q.sound q.valid q.alive q.room q.set q.fits q.ok q.gone)
      λ c p.
        Returns-map _ _ (handle_all (map (λ r. r.0) rest) a (set_at j c cs))
          (handle_all-After rest a (set_at j c cs) d (IsReady-rest j events rest c a cs once h))
          (λ cs' after. After-first j events rest c a cs once cs' after p)

-- Where epoll_wait(2) returns events for distinct connections, no more than its list has places, and
-- each of these, with its events, meets what `handle_event-Served` asks for: the whole turn succeeds,
-- every one of them is served by its own events, and every other connection is as it was.
pub serve_events-After :
    (first : ℕ × Events) (rest : List (ℕ × Events)) (a : ℕ → Replies) (p : Poller)
    (cs : ℕ → Connection)
    → length (first ∷ rest) ≤ p.size
    → Distinct (first ∷ rest)
    → ((i : ℕ) (events : Events)
        → last_returned i (first ∷ rest) ≡ some events
        → IsReady (a i) (readied (some events) (cs i)))
    → Returns (serve_events (ready first rest) a p cs) (λ cs'.
      (i : ℕ)
      → let events = last_returned i (first ∷ rest) in
        After events (a i) (readied events (cs i)) (cs' i))
unfolding serve_events
serve_events-After first rest a p cs h d ok =
    let returned = first ∷ rest in
    let start = record p { channels = λ i. (cs i).channel } in
    let polled = poll_lem first rest start h in
    let run = λ (active : List ℕ) (channels : ℕ → Channel).
      Returns (handle_all active a (λ i. record (cs i) { channel = channels i })) (λ cs'.
        (i : ℕ)
        → let events = last_returned i returned in
          After events (a i) (readied events (cs i)) (cs' i)) in
    subst (λ l. run l (poll (ready first rest) start).1.channels) (sym polled.0)
      (subst (run (map (λ r. r.0) returned)) (sym (fun_ext polled.1)) (
        handle_all-After returned a (λ i. readied (last_returned i returned) (cs i)) d
          (λ i events found.
            subst (λ o. IsReady (a i) (readied o (cs i))) (sym found) (ok i events found))))
