-- ===== src/TcpConnection/Serving.antt =====
-- What one handleEvent does with a TcpConnection.
use cannet.Common.{
  ℕ, ◌+◌, ◌≤◌, ◌≡◌, refl, sym, subst, inl, inr, Bool, true, false, ◌&&◌, ◌||◌, Option, none, some,
  List, [], ◌∷◌, ◌++◌, arith, if◌then◌else◌, ◌>>=◌, Bool-cases, Returns, Returns-bind, length,
  append-nil, max_size,
}
use cannet.SocketOps.{Received, read_failed}
use cannet.Channel.{
  Channel, Call, close_call, error_call, read_call, write_call, call_if, is_none_event, is_writing,
}
use cannet.Channel
use cannet.Buffer.{iov_room, extrabuf_size, readable_bytes}
use cannet.Buffer.Validity.{IsValid}
use cannet.Buffer.Contents.{contents}
use cannet.TcpConnection.{Connection, handle_write}
use cannet.TcpConnection.Appending.{IsSound, Answers}
use cannet.TcpConnection.Control.{is_alive, handle_read, handle_close}
use cannet.TcpConnection.Dispatch.{Replies, callbacks, handle_event}
use cannet.TcpConnection.Hearing.{
  hangs_up, is_heard, ends, bytes_of, Heard, Holds, Served, Fits, handle_close-Heard,
  handle_read-by, handle_read_failed, Heard-Served, write-Served,
}

-- The flag of the channel changes nothing of this.
flagged : Bool → Connection → Connection
flagged b c = record c { channel = record (c.channel) { event_handling = b } }

flagged-IsSound : (b : Bool) (c : Connection) → IsSound c → IsSound (flagged b c)
unfolding flagged is_writing
flagged-IsSound b c s = record { valid = s.valid; no_file = s.no_file; waits = s.waits }

flagged-Served :
    (b closed : Bool) (bytes : List ℕ) (c d : Connection)
    → Served closed bytes (flagged true c) d
    → Served closed bytes c (flagged b d)
unfolding flagged is_none_event
flagged-Served b true bytes c d s = s
flagged-Served b false bytes c d s = (flagged-IsSound b d s.0, s.1, s.2)

settle :
    (closed : Bool) (bytes : List ℕ) (c : Connection) (m : Option Connection)
    → Returns m (λ d. Holds bytes (flagged true c) d × Served closed bytes (flagged true c) d)
    → Returns (m >>= λ d. some (flagged false d)) (λ d. Holds bytes c d × Served closed bytes c d)
unfolding flagged
settle closed bytes c none p = p
settle closed bytes c (some d) p = (p.0, flagged-Served false closed bytes c d p.1)

-- handleError only logs.
errors :
    (a : Replies) (err : Bool) (calls : List Call) (c : Connection)
    → callbacks a (call_if err error_call ++ calls) c ≡ callbacks a calls c
unfolding callbacks call_if
errors a true calls c = refl
errors a false calls c = refl

module _ (a : Replies) (c : Connection) where
  abbrev Results : Bool → List ℕ → List Call → Connection → Type 0
  Results closed bytes calls d =
      Returns (callbacks a calls d) (λ e. Holds bytes c e × Served closed bytes c e)

  writes :
      (out closed : Bool) (bytes : List ℕ) (d : Connection)
      → Holds bytes c d
      → Heard closed bytes c d
      → Answers a.write (readable_bytes d.output)
      → Results closed bytes (call_if out write_call) d
  unfolding callbacks call_if
  writes false closed bytes d h k ok = (h, Heard-Served closed bytes c d k)
  writes true closed bytes d h k ok =
      Returns-bind _ _ (handle_write a.write a.file d) some (write-Served a closed bytes c d h k ok)
        (λ e p. p)

  module _ (s : IsSound c) (v : IsValid c.input) (alive : is_alive c.state ≡ true)
      (room : length c.input.bytes + extrabuf_size ≤ max_size)
      (fits : Fits (a.readv (iov_room c.input)) (iov_room c.input))
      (ok : Answers a.write (readable_bytes c.output)) where
    abbrev r : Received
    r = a.readv (iov_room c.input)

    reads :
        (heard out : Bool)
        → Results
            (heard && ends r)
            (if heard then bytes_of r else [])
            (call_if heard read_call ++ call_if out write_call)
            c
    unfolding callbacks call_if
    reads false out =
        writes out false [] c (v, sym (append-nil (contents c.input)), refl)
          (s, refl, sym (append-nil c.tasks)) ok
    reads true out =
        Returns-bind _ _ (handle_read a.readv c) (callbacks a (call_if out write_call))
          (handle_read-by a.readv r c s v alive room refl fits)
          (λ d p.
            writes out (ends r) (bytes_of r) d p.0 p.1
              (subst (λ o. Answers a.write (readable_bytes o)) (sym p.2) ok))

    -- What comes behind a close: the read fails.
    closes :
        (err out : Bool) (errno : ℕ)
        → r ≡ read_failed errno
        → Results true []
            (close_call ∷ (call_if err error_call ++ (read_call ∷ call_if out write_call)))
            c
    unfolding callbacks call_if
    closes err out errno e =
        Returns-bind _ _ (handle_close c) _ (handle_close-Heard c v alive) (λ d p.
          let failing : a.readv (iov_room d.input) ≡ read_failed errno =
            subst (λ b. a.readv (iov_room b) ≡ read_failed errno) (sym p.2) e in
          rw
            (
              errors a err (read_call ∷ call_if out write_call) d,
              handle_read_failed a.readv errno d failing,
            )
            (writes out true [] d p.0 p.1
              (subst (λ o. Answers a.write (readable_bytes o)) (sym p.3) ok)))

-- The four callbacks that the constructor sets.
abbrev pub HasCallbacks : Channel → Type 0
HasCallbacks ch =
    (ch.has_read ≡ true) × (ch.has_write ≡ true) × (ch.has_close ≡ true) × (ch.has_error ≡ true)

-- What readv(2) answers in this event, the bytes that come in, and whether the connection is closed.
abbrev pub answered : Replies → Connection → Received
answered a c = a.readv (iov_room c.input)

abbrev pub arrived : Replies → Connection → List ℕ
arrived a c = if is_heard c.channel.revents then bytes_of (answered a c) else []

abbrev pub is_closed_by : Replies → Connection → Bool
is_closed_by a c = hangs_up c.channel.revents || (is_heard c.channel.revents && ends (answered a c))

module _ (ch : Channel) (set : HasCallbacks ch) where
  calls_open :
      hangs_up ch.revents ≡ false
      → (Channel.handle_event ch).0
        ≡ call_if ch.revents.epoll_err error_call
          ++ (call_if (is_heard ch.revents) read_call ++ call_if ch.revents.epoll_out write_call)
  unfolding Channel.handle_event call_if
  calls_open down = ground arith

  calls_hang_up :
      hangs_up ch.revents ≡ true
      → ((Channel.handle_event ch).0
          ≡ close_call
            ∷ (call_if ch.revents.epoll_err error_call
                ++ (read_call ∷ call_if ch.revents.epoll_out write_call)))
        × (is_heard ch.revents ≡ true)
  unfolding Channel.handle_event call_if
  calls_hang_up up = (ground arith, ground arith)

-- On an open connection with its four callbacks, for any returned events, where readv(2) and write(2)
-- answer within what they are offered and no fault ends the sending, and where readv(2) fails after a
-- hang-up with nothing to read, since the descriptor is closed by then: no assert fails. What came in is
-- behind what was there, and no byte of what is to be sent is lost. A hang-up, or the end of the stream,
-- closes the connection for good, with the close callback and no other; else it is as open as it was, the
-- message callback is made where bytes came in, and after it at most that for written bytes.
pub handle_event-Served :
    (a : Replies) (c : Connection)
    → IsSound c
    → IsValid c.input
    → is_alive c.state ≡ true
    → length c.input.bytes + extrabuf_size ≤ max_size
    → HasCallbacks c.channel
    → Fits (answered a c) (iov_room c.input)
    → Answers a.write (readable_bytes c.output)
    → (hangs_up c.channel.revents ≡ true → (errno : ℕ) × (answered a c ≡ read_failed errno))
    → Returns
        (handle_event a c)
        (λ c'. Holds (arrived a c) c c' × Served (is_closed_by a c) (arrived a c) c c')
unfolding handle_event flagged
handle_event-Served a c s v alive room set fits ok gone =
    let c0 = flagged true c in
    let ch = c.channel in
    let s0 = flagged-IsSound true c s in
    let err = ch.revents.epoll_err in
    let out = ch.revents.epoll_out in
    elim (Bool-cases (hangs_up ch.revents)) [
      | inl up ↦
          let (calls, heard) = calls_hang_up ch set up in
          let (errno, failing) = gone up in
          let behind = call_if err error_call ++ (read_call ∷ call_if out write_call) in
          rw (calls, up, heard, failing)
            (settle true [] c (callbacks a (close_call ∷ behind) c0)
              (closes a c0 s0 v alive room fits ok err out errno failing))
      | inr down ↦
          let heard = is_heard ch.revents in
          let calls = call_if heard read_call ++ call_if out write_call in
          rw (calls_open ch set down, down, errors a err calls c0)
            (settle (heard && ends (answered a c)) (arrived a c) c (callbacks a calls c0)
              (reads a c0 s0 v alive room fits ok heard out))
    ]
