-- ===== src/Reactor/Arrivals.antt =====
-- A connection that is accepted is set up on the loop whose turn it is.
use cannet.Common.{
  ℕ, ◌≡◌, refl, sym, ap, subst, ◌∙◌, Bool, true, false, some, List, [], ◌∷◌, ◌++◌, map, append-nil,
  length, drop, drop-append, ◌==◌, if◌then◌else◌, Bool-cases, inl, inr, Returns, Returns-bind,
  Returns-map, arith,
}
use cannet.EventLoop.{turn}
use cannet.EventLoop.Rounds.{turn_lem, queued_by}
use cannet.EventLoopThreadPool.RoundRobin.{IsServing, rotation}
use cannet.Epoll.Connections.{Connections, Fresh, run}
use cannet.Epoll.Ownership.{IsOwned, Matches, Fits, opened_after, run-IsOwned}
use cannet.TcpServer.{TcpServer, Answers, accept_hand_read}
use cannet.TcpServer.Accept.{taken, Ends, share, Hands, accept_hand_read-Hands}
use cannet.Reactor.{Reactor, creations, take_turn, accept_and_turn}

-- Fewer descriptors are open.
Fits-less :
    (fresh : ℕ → Fresh) (fds : List ℕ) (opened more : ℕ → Bool)
    → ((d : ℕ) → more d ≡ false → opened d ≡ false)
    → Fits (creations fresh fds) more
    → Fits (creations fresh fds) opened
Fits-less fresh [] opened more h f = tt
Fits-less fresh (fd ∷ rest) opened more h f = (
  h fd f.0,
  Fits-less fresh rest (λ d. if d == fd then true else opened d)
      (λ d. if d == fd then true else more d) (λ d e. ground (arith, h d, e)) f.1,
)

-- What goes to one loop fits where all would.
Fits-share :
    (fresh : ℕ → Fresh) (j : ℕ) (ls fds : List ℕ) (opened : ℕ → Bool)
    → Fits (creations fresh fds) opened
    → Fits (creations fresh (share j ls fds)) opened
Fits-share fresh j [] fds opened f = tt
Fits-share fresh j (l ∷ ls) [] opened f = tt
Fits-share fresh j (l ∷ ls) (fd ∷ fds) opened f = elim (Bool-cases (j == l)) [
  | inl e ↦ rw e (f.0, Fits-share fresh j ls fds (λ d. if d == fd then true else opened d) f.1)
  | inr e ↦ rw e (
      Fits-share fresh j ls fds opened (
        Fits-less fresh fds opened (λ d. if d == fd then true else opened d)
          (λ d h. ground (arith, h)) f.1))
]

queued_by-nothing : (fs : List ℕ) → queued_by (λ fd. []) fs ≡ []
queued_by-nothing [] = refl
queued_by-nothing (f ∷ fs) = queued_by-nothing fs

-- The state of a reactor that holds these descriptors, with no functor left.
abbrev pub Serves : (ℕ → Bool) → Reactor → Type 0
Serves opened r = IsOwned r.connections × Matches r.connections opened × (r.loop.functors ≡ [])

take_turn-Serves :
    (fresh : ℕ → Fresh) (r : Reactor) (opened : ℕ → Bool)
    → IsOwned r.connections
    → Matches r.connections opened
    → Fits (creations fresh r.loop.functors) opened
    → Returns (take_turn fresh r) (Serves (opened_after (creations fresh r.loop.functors) opened))
unfolding take_turn
take_turn-Serves fresh r opened o m f =
    let t = turn_lem (λ fd. []) [] r.loop in
    let ran : drop (length r.loop.ran) (turn (λ fd. []) [] r.loop).ran ≡ r.loop.functors =
      ap (drop (length r.loop.ran)) (t.0 ∙ ap (λ x. r.loop.ran ++ x) (append-nil r.loop.functors))
      ∙ drop-append (length r.loop.ran) r.loop.ran r.loop.functors refl in
    rw ran (
      Returns-bind _ _ (run (creations fresh r.loop.functors) r.connections) _
        (run-IsOwned (creations fresh r.loop.functors) r.connections opened o m f)
        (λ c p. (p.0, p.1, t.1 ∙ queued_by-nothing (r.loop.functors ++ []))))

-- From a server with a started pool, whose loop `j` has no functors left and an owned set of
-- connections, and where the accepted descriptors were not open and differ: the accept loop ends, the
-- next turn of loop `j` succeeds, and then that loop has a live connection for each descriptor that it
-- had and for each accepted one whose turn in the rotation was `j`, and for no other.
pub accept_and_turn-Serves :
    (answers : List Answers) (fresh : ℕ → Fresh) (j : ℕ) (connections : Connections) (s : TcpServer)
    (opened : ℕ → Bool)
    → IsServing s.pool
    → Ends answers
    → (s.loops j).functors ≡ []
    → IsOwned connections
    → Matches connections opened
    → Fits (creations fresh (taken answers)) opened
    → Returns (accept_and_turn answers fresh j connections s) (λ r.
      (ls : List ℕ) × (map some ls
        ≡ rotation s.pool.loops s.pool.num_threads s.pool.next (length (taken answers)))
      × Serves (opened_after (creations fresh (share j ls (taken answers))) opened) r)
unfolding accept_and_turn
accept_and_turn-Serves answers fresh j connections s opened v ends idle o m f =
    Returns-bind (Hands j (taken answers) s) _ (accept_hand_read answers s) _
      (accept_hand_read-Hands j answers s v ends)
      (λ s' (ls, turns, moves, queued).
        let due : (s'.loops j).functors ≡ share j ls (taken answers) =
          queued ∙ ap (λ fs. fs ++ share j ls (taken answers)) idle in
        let r : Reactor = record { loop = s'.loops j; connections = connections } in
        Returns-map _ _ (take_turn fresh r)
          (take_turn-Serves fresh r opened o m (
            subst (λ fds. Fits (creations fresh fds) opened) (sym due)
              (Fits-share fresh j ls (taken answers) opened f)))
          (λ r' p. (
            ls,
            turns,
            subst (λ fds. Serves (opened_after (creations fresh fds) opened) r') due p,
          )))
