-- ===== src/Reactor/Serving/Tests.antt =====
-- Two events of three connections: bytes come in on one, and another one hangs up.
use cannet.Common.{
  ℕ, ◌≡◌, ◌⊎◌, inl, inr, refl, sym, subst, true, some, List, [], ◌∷◌, Returns, arith, ◌==◌, ==_iff,
  if◌then◌else◌, replicate,
}
use cannet.SocketOps.{failed, read_failed, bytes_in, eagain}
use cannet.Events.{Events, k_none_event, k_read_event_lt}
use cannet.Channel.{create, set_revents}
use cannet.Buffer.{Buffer, iov_room, writeable_bytes, readable_bytes}
use cannet.Epoll.Polling.{Poller, ready, last_returned}
use cannet.TcpConnection.{Connection, connected, file_failed, is_fault}
use cannet.TcpConnection.Control.{make_connection, is_alive}
use cannet.TcpConnection.Dispatch.{Replies, handle_event}
use cannet.TcpConnection.Hearing.{Holds, Served}
use cannet.TcpConnection.Serving.{arrived, is_closed_by, handle_event-Served}
use cannet.Reactor.Serving.{IsReady, readied, After, serve_events, serve_events-After}

abbrev empty : Buffer
empty = record { bytes = replicate 24 0; reader_index = 8; writer_index = 8 }

abbrev open_at : ℕ → Connection
open_at fd = record (make_connection fd true empty empty) { state = connected }

abbrev hang_up : Events
hang_up = record k_none_event { epoll_hup = true }

abbrev later : List (ℕ × Events)
later = (5, hang_up) ∷ []

abbrev replies : ℕ → Replies
replies i = record {
  readv = λ room. if i == 3 then bytes_in (65 ∷ 66 ∷ []) else read_failed 9;
  write = failed eagain;
  file = file_failed eagain;
}

abbrev poller : Poller
poller = record { channels = λ i. create i; size = 16; errors = 0 }

three-IsReady : IsReady (replies 3) (readied (some k_read_event_lt) (open_at 3))
unfolding make_connection create set_revents iov_room writeable_bytes readable_bytes is_alive
    is_fault
three-IsReady = record {
  sound = record { valid = omega arith; no_file = refl; waits = inr refl };
  valid = omega arith;
  alive = refl;
  room = omega arith;
  set = (refl, refl, refl, refl);
  fits = omega arith;
  ok = refl;
  gone = λ h. absurd (let no : ⊥ = cc h in no);
}

five-IsReady : IsReady (replies 5) (readied (some hang_up) (open_at 5))
unfolding make_connection create set_revents readable_bytes is_alive is_fault
five-IsReady = record {
  sound = record { valid = omega arith; no_file = refl; waits = inr refl };
  valid = omega arith;
  alive = refl;
  room = omega arith;
  set = (refl, refl, refl, refl);
  fits = tt;
  ok = refl;
  gone = λ h. (9, refl);
}

returned_for :
    (i : ℕ) (events : Events)
    → last_returned i ((3, k_read_event_lt) ∷ later) ≡ some events
    → ((i ≡ 3) × (k_read_event_lt ≡ events)) ⊎ ((i ≡ 5) × (hang_up ≡ events))
returned_for i events h = ground (arith, ==_iff i 3, ==_iff i 5)

all-IsReady :
    (i : ℕ) (events : Events)
    → last_returned i ((3, k_read_event_lt) ∷ later) ≡ some events
    → IsReady (replies i) (readied (some events) (open_at i))
all-IsReady i events h = elim (returned_for i events h) [
  | inl (at, e) ↦
      subst (λ k. IsReady (replies k) (readied (some events) (open_at k))) (sym at)
        (subst (λ x. IsReady (replies 3) (readied (some x) (open_at 3))) e three-IsReady)
  | inr (at, e) ↦
      subst (λ k. IsReady (replies k) (readied (some events) (open_at k))) (sym at)
        (subst (λ x. IsReady (replies 5) (readied (some x) (open_at 5))) e five-IsReady)
]

serve_events-After_example :
    Returns (serve_events (ready (3, k_read_event_lt) later) replies poller open_at) (λ cs'.
      (i : ℕ)
      → let events = last_returned i ((3, k_read_event_lt) ∷ later) in
        After events (replies i) (readied events (open_at i)) (cs' i))
serve_events-After_example =
    serve_events-After (3, k_read_event_lt) later replies poller open_at (omega arith)
      (refl, (refl, tt)) all-IsReady

handle_event-Served_example :
    let c = readied (some hang_up) (open_at 5) in
    Returns (handle_event (replies 5) c) (λ c'.
      Holds (arrived (replies 5) c) c c'
      × Served (is_closed_by (replies 5) c) (arrived (replies 5) c) c c')
handle_event-Served_example =
    let r = five-IsReady in
    handle_event-Served (replies 5) (readied (some hang_up) (open_at 5)) r.sound r.valid r.alive
      r.room r.set r.fits r.ok r.gone
