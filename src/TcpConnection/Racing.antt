-- ===== src/TcpConnection/Racing.antt =====
-- forceClose of net/TcpConnection.cpp on another thread than that of the loop: its test and its store of
-- `state_` are two steps.
use cannet.Common.{
  ℕ, suc, ◌+◌, ◌≤◌, ◌≡◌, refl, subst, inl, inr, true, false, Option, some, arith, if◌then◌else◌,
  Bool-cases, Returns, Returns-some,
}
use cannet.TcpConnection.{Connection, State, disconnected, disconnecting}
use cannet.TcpConnection.Control.{is_alive, force_close_in_loop, handle_close}
use cannet.TcpConnection.Closing.{
  closes_in, closed-alive, forced_in_loop-alive, forced_in_loop-over,
}

-- Where another thread stands in forceClose: before it, past the test, past the store, and through.
pub data Caller : Type 0 where
  outside past_test past_store over : Caller

-- `queued` counts the forceCloseInLoop that wait in the loop.
pub record Race : Type 0 where
  pub conn : Connection
  pub caller : Caller
  pub queued : ℕ

abbrev pub race : Connection → Race
race c = record { conn = c; caller = outside; queued = 0 }

-- The other thread in forceClose, and the loop: an event on which the connection is closed, or a functor.
pub data Step (r : Race) : Race → Type 0 where
  tests :
      r.caller ≡ outside → is_alive r.conn.state ≡ true → Step r (record r { caller = past_test })
  refuses : r.caller ≡ outside → is_alive r.conn.state ≡ false → Step r (record r { caller = over })
  stores :
      r.caller ≡ past_test
      → Step r (record r { conn = record (r.conn) { state = disconnecting }; caller = past_store })
  queues : r.caller ≡ past_store → Step r (record r { caller = over; queued = r.queued + 1 })
  ends : (c : Connection) → handle_close r.conn ≡ some c → Step r (record r { conn = c })
  runs :
      (n : ℕ) (c : Connection)
      → r.queued ≡ suc n
      → force_close_in_loop r.conn ≡ some c
      → Step r (record r { conn = c; queued = n })

pub data Reach (r : Race) : Race → Type 0 where
  here : Reach r r
  next : {s t : Race} → Reach r s → Step s t → Reach r t

-- An open connection can be closed twice: the loop closes it between the test and the store of another
-- thread, whose store opens it again, and the functor that is then queued closes it once more.
pub closed_twice :
    (c : Connection)
    → is_alive c.state ≡ true
    → (r : Race) × Reach (race c) r × (closes_in r.conn.tasks ≡ closes_in c.tasks + 2)
unfolding is_alive
closed_twice c h =
    let (d, first, (gone, once)) = Returns-some _ (handle_close c) (closed-alive c h) in
    let e = record d { state = disconnecting } in
    let (f, second, (gone', twice)) =
      Returns-some _ (force_close_in_loop e) (forced_in_loop-alive e refl) in
    (
      record { conn = f; caller = over; queued = 0 },
      next
          (next (next (next (next here (tests refl h)) (ends d first)) (stores refl)) (queues refl))
          (runs 0 f refl second),
      omega (arith, once, twice),
    )

-- What is left of the closes: the connection is open, or the store may open it.
abbrev left : Caller → State → ℕ
left outside s = if is_alive s then 2 else 1
left past_test s = if is_alive s then 2 else 1
left _ s = if is_alive s then 1 else 0

closed-alive_before : (c c' : Connection) → handle_close c ≡ some c' → is_alive c.state ≡ true
unfolding handle_close
closed-alive_before c c' e = ground arith

left_less :
    (k : Caller) (s t : State) → is_alive s ≡ true → t ≡ disconnected → left k t + 1 ≤ left k s
unfolding is_alive
left_less outside s t a e = ground (arith, a, e)
left_less past_test s t a e = ground (arith, a, e)
left_less past_store s t a e = ground (arith, a, e)
left_less over s t a e = ground (arith, a, e)

ends_left :
    (k : Caller) (c c' : Connection) (m : Option Connection)
    → is_alive c.state ≡ true
    → m ≡ some c'
    → Returns m (λ d. (d.state ≡ disconnected) × (closes_in d.tasks ≡ closes_in c.tasks + 1))
    → closes_in c'.tasks + left k c'.state ≤ closes_in c.tasks + left k c.state
ends_left k c c' m a e h =
    let p =
      subst
        (λ o.
          Returns o (λ d. (d.state ≡ disconnected) × (closes_in d.tasks ≡ closes_in c.tasks + 1)))
        e h in
    omega (arith, p.1, left_less k c.state c'.state a p.0)

Step-left :
    (n : ℕ) {r s : Race}
    → closes_in r.conn.tasks + left r.caller r.conn.state ≤ n
    → Step r s
    → closes_in s.conn.tasks + left s.caller s.conn.state ≤ n
unfolding is_alive
Step-left n {r} h (tests e a) = ground (arith, h, e)
Step-left n {r} h (refuses e a) = ground (arith, h, e)
Step-left n {r} h (stores e) = ground (arith, h, e)
Step-left n {r} h (queues e) = ground (arith, h, e)
Step-left n {r} h (ends c e) =
    let a = closed-alive_before r.conn c e in
    omega (arith, h, ends_left r.caller r.conn c (handle_close r.conn) a e (closed-alive r.conn a))
Step-left n {r} h (runs m c q e) = elim (Bool-cases (is_alive r.conn.state)) [
  | inl a ↦ omega (
    arith,
    h,
    ends_left r.caller r.conn c (force_close_in_loop r.conn) a e (forced_in_loop-alive r.conn a),
  )
  | inr a ↦
      let same : r.conn ≡ c = cc (forced_in_loop-over r.conn a, e) in
      subst (λ (d : Connection). closes_in d.tasks + left r.caller d.state ≤ n) same h
]

-- Whatever the order, it is not closed more than twice.
pub closed_at_most_twice :
    (c : Connection) (r : Race) → Reach (race c) r → closes_in r.conn.tasks ≤ closes_in c.tasks + 2
closed_at_most_twice c r h = let e = reach_left h (start_left c.state) in omega (arith, e)
  where
    start_left : (s : State) → closes_in c.tasks + left outside s ≤ closes_in c.tasks + 2
    start_left s = ground arith

    reach_left :
        {t : Race}
        → Reach (race c) t
        → closes_in c.tasks + left outside c.state ≤ closes_in c.tasks + 2
        → closes_in t.conn.tasks + left t.caller t.conn.state ≤ closes_in c.tasks + 2
    reach_left here h = h
    reach_left (next r st) h = Step-left (closes_in c.tasks + 2) (reach_left r h) st
