-- ===== src/TcpConnection/Closing.antt =====
-- How often a connection of net/TcpConnection.cpp is closed by calls on the thread of its loop.
use cannet.Common.{
  ℕ, ◌+◌, ◌≡◌, refl, sym, ap, ◌∙◌, inl, inr, Bool, true, false, not, Option, some, List, [], ◌∷◌,
  ◌++◌, arith, if◌then◌else◌, ◌>>=◌, Bool-cases, Returns, Returns-bind, Returns-map,
}
use cannet.TcpConnection.{
  Connection, State, disconnected, connecting, connected, disconnecting, Task, force_close,
  close_callback, shutdown_in_loop,
}
use cannet.TcpConnection.Control.{
  is_connected, is_alive, shutdown, request_force_close, force_close_in_loop, handle_close,
}

-- The closes that the user was told of.
abbrev pub is_close : Task → ℕ
is_close close_callback = 1
is_close _ = 0

abbrev pub closes_in : List Task → ℕ
closes_in [] = 0
closes_in (t ∷ rest) = is_close t + closes_in rest

closes_in-append :
    (ts : List Task) (t : Task) → closes_in (ts ++ (t ∷ [])) ≡ closes_in ts + is_close t
closes_in-append [] t = omega arith
closes_in-append (s ∷ ts) t = omega (arith, closes_in-append ts t)

-- Calls on the thread of the loop: shutdown, forceClose, and forceCloseInLoop of the queue.
pub data Call : Type 0 where
  shuts forces closes : Call

unfoldable pub play_calls : List Call → Connection → Option Connection
unfolding shutdown request_force_close force_close_in_loop
play_calls [] c = some c
play_calls (shuts ∷ rest) c = play_calls rest (shutdown c)
play_calls (forces ∷ rest) c = play_calls rest (request_force_close c)
play_calls (closes ∷ rest) c = do c' ← force_close_in_loop c; play_calls rest c'

abbrev pub any_closes : List Call → Bool
any_closes [] = false
any_closes (closes ∷ rest) = true
any_closes (_ ∷ rest) = any_closes rest

connected-alive : (s : State) → is_connected s ≡ true → is_alive s ≡ true
unfolding is_connected is_alive
connected-alive connected e = refl
connected-alive disconnected e = absurd (let no : ⊥ = cc e in no)
connected-alive connecting e = absurd (let no : ⊥ = cc e in no)
connected-alive disconnecting e = refl

shutdown_in_loop-kept :
    (c : Connection)
    → ((shutdown_in_loop c).state ≡ c.state) × ((shutdown_in_loop c).tasks ≡ c.tasks)
unfolding shutdown_in_loop
shutdown_in_loop-kept c = ground arith

-- What a call does with an open connection, and with one that is not.
shutdown-alive :
    (c : Connection) (b : Bool)
    → is_alive c.state ≡ b
    → (is_alive (shutdown c).state ≡ b) × ((shutdown c).tasks ≡ c.tasks)
unfolding shutdown is_alive
shutdown-alive c b h =
    let d = record c { state = disconnecting } in
    elim (Bool-cases (is_connected c.state)) [
      | inl e ↦
          let k = shutdown_in_loop-kept d in
          rw e (ap is_alive k.0 ∙ sym (connected-alive c.state e) ∙ h, k.1)
      | inr e ↦ rw e (h, refl)
    ]

forced-alive :
    (c : Connection) (b : Bool)
    → is_alive c.state ≡ b
    → (is_alive (request_force_close c).state ≡ b)
      × (closes_in (request_force_close c).tasks ≡ closes_in c.tasks)
unfolding request_force_close
forced-alive c b h = ground (arith, closes_in-append c.tasks force_close)

pub closed-alive :
    (c : Connection)
    → is_alive c.state ≡ true
    → Returns
        (handle_close c)
        (λ c'. (c'.state ≡ disconnected) × (closes_in c'.tasks ≡ closes_in c.tasks + 1))
unfolding handle_close
closed-alive c h = ground (arith, closes_in-append c.tasks close_callback)

pub forced_in_loop-alive :
    (c : Connection)
    → is_alive c.state ≡ true
    → Returns
        (force_close_in_loop c)
        (λ c'. (c'.state ≡ disconnected) × (closes_in c'.tasks ≡ closes_in c.tasks + 1))
unfolding force_close_in_loop
forced_in_loop-alive c h = ground (arith, closes_in-append c.tasks close_callback)

pub forced_in_loop-over :
    (c : Connection) → is_alive c.state ≡ false → force_close_in_loop c ≡ some c
unfolding force_close_in_loop
forced_in_loop-over c h = rw h

-- A connection that is not open is not closed again.
play_calls-over :
    (calls : List Call) (c : Connection)
    → is_alive c.state ≡ false
    → Returns
        (play_calls calls c)
        (λ c'. (is_alive c'.state ≡ false) × (closes_in c'.tasks ≡ closes_in c.tasks))
unfolding play_calls
play_calls-over [] c h = (h, refl)
play_calls-over (shuts ∷ rest) c h =
    let k = shutdown-alive c false h in
    Returns-map _ _ (play_calls rest (shutdown c)) (play_calls-over rest (shutdown c) k.0)
      (λ c' p. (p.0, p.1 ∙ ap closes_in k.1))
play_calls-over (forces ∷ rest) c h =
    let k = forced-alive c false h in
    Returns-map _ _ (play_calls rest (request_force_close c))
      (play_calls-over rest (request_force_close c) k.0) (λ c' p. (p.0, p.1 ∙ k.1))
play_calls-over (closes ∷ rest) c h = rw (forced_in_loop-over c h) (play_calls-over rest c h)

-- Of any calls of `shutdown`, `forceClose` and `forceCloseInLoop` on the thread of the loop, in any order,
-- none fails on an open connection; it is closed by the first forceCloseInLoop, the close callback is
-- made once then, and otherwise not at all.
pub play_calls-closes :
    (calls : List Call) (c : Connection)
    → is_alive c.state ≡ true
    → Returns (play_calls calls c) (λ c'.
      (is_alive c'.state ≡ not (any_closes calls))
      × (closes_in c'.tasks ≡ closes_in c.tasks + (if any_closes calls then 1 else 0)))
unfolding play_calls
play_calls-closes [] c h = (h, omega arith)
play_calls-closes (shuts ∷ rest) c h =
    let k = shutdown-alive c true h in
    Returns-map _ _ (play_calls rest (shutdown c)) (play_calls-closes rest (shutdown c) k.0)
      (λ c' p. (p.0, omega (arith, p.1, ap closes_in k.1)))
play_calls-closes (forces ∷ rest) c h =
    let k = forced-alive c true h in
    Returns-map _ _ (play_calls rest (request_force_close c))
      (play_calls-closes rest (request_force_close c) k.0) (λ c' p. (p.0, omega (arith, p.1, k.1)))
play_calls-closes (closes ∷ rest) c h =
    Returns-bind _ _ (force_close_in_loop c) _ (forced_in_loop-alive c h) (λ d k.
      Returns-map _ _ (play_calls rest d) (play_calls-over rest d (ap is_alive k.0))
        (λ c' p. (p.0, p.1 ∙ k.1)))
