-- ===== src/TcpConnection/Hearing.antt =====
-- What handleRead, handleClose and handleWrite of net/TcpConnection.cpp do with a connection in one event.
use cannet.Common.{
  ℕ, ◌+◌, ◌≤◌, ◌≡◌, refl, sym, ap, subst, ◌∙◌, ◌⊎◌, inl, inr, Bool, true, false, not, ◌&&◌, ◌||◌,
  some, List, [], ◌∷◌, ◌++◌, arith, ◌==◌, Returns, Returns-bind, Returns-some, Option-cases, take,
  length, append-nil, max_size,
}
use cannet.SocketOps.{IoResult, failed, count, Received, read_failed, bytes_in}
use cannet.Events.{Events}
use cannet.Channel.{is_none_event, is_writing}
use cannet.Buffer.{Buffer, read_fd, iov_room, extrabuf_size, readable_bytes, retrieve, peek_bytes}
use cannet.Buffer.Validity.{IsValid}
use cannet.Buffer.Contents.{contents}
use cannet.Buffer.Reading.{read_fd_lem, read_fd_failed}
use cannet.TcpConnection.{
  Connection, disconnected, FileAnswer, Task, close_callback, message_callback, write_complete,
  handle_write, writing_done, write_output, disable_events, shutdown_in_loop,
}
use cannet.TcpConnection.Appending.{stream, IsSound, Answers}
use cannet.TcpConnection.Sending.{handle_write-Appends}
use cannet.TcpConnection.Control.{is_alive, handle_read, handle_close}
use cannet.TcpConnection.Dispatch.{Replies}

-- A hang-up with nothing to read, on which the connection is closed before it is read.
abbrev pub hangs_up : Events → Bool
hangs_up r = r.epoll_hup && not r.epoll_in

abbrev pub is_heard : Events → Bool
is_heard r = r.epoll_in || (r.epoll_pri || r.epoll_hup)

abbrev pub ends : Received → Bool
ends (bytes_in []) = true
ends _ = false

abbrev pub bytes_of : Received → List ℕ
bytes_of (read_failed errno) = []
bytes_of (bytes_in bytes) = bytes

abbrev pub told : List ℕ → List Task
told [] = []
told (b ∷ bytes) = message_callback ∷ []

-- A connection that these bytes came in on, from `c`: it is closed for good, or as open as it was.
abbrev pub Heard : Bool → List ℕ → Connection → Connection → Type 0
Heard true bytes c c' =
    (c'.state ≡ disconnected)
    × (is_none_event c'.channel ≡ true)
    × (c'.channel.added_to_loop ≡ false)
    × (c'.tasks ≡ c.tasks ++ (close_callback ∷ []))
Heard false bytes c c' = IsSound c' × (c'.state ≡ c.state) × (c'.tasks ≡ c.tasks ++ told bytes)

-- Both buffers, by what is in them.
abbrev pub Holds : List ℕ → Connection → Connection → Type 0
Holds bytes c c' =
    IsValid c'.input × (contents c'.input ≡ contents c.input ++ bytes) × (stream c' ≡ stream c)

pub handle_close-Heard :
    (c : Connection)
    → IsValid c.input
    → is_alive c.state ≡ true
    → Returns
        (handle_close c)
        (λ d. Holds [] c d × Heard true [] c d × (d.input ≡ c.input) × (d.output ≡ c.output))
unfolding handle_close is_none_event
handle_close-Heard c v h = ground (arith, append-nil (contents c.input), v)

pub handle_read_failed :
    (readv : ℕ → Received) (errno : ℕ) (c : Connection)
    → readv (iov_room c.input) ≡ read_failed errno
    → handle_read readv c ≡ some c
unfolding handle_read
handle_read_failed readv errno c e = rw (read_fd_failed readv errno c.input e)

-- What readv(2) may answer for the room that it is offered.
abbrev pub Fits : Received → ℕ → Type 0
Fits (read_failed errno) room = Unit
Fits (bytes_in bytes) room = length bytes ≤ room

closed_at_end :
    (input : Buffer) (c : Connection)
    → IsValid input
    → contents input ≡ contents c.input
    → is_alive c.state ≡ true
    → Returns
        (handle_close (record c { input = input }))
        (λ d. Holds [] c d × Heard true [] c d × (d.output ≡ c.output))
unfolding handle_close is_none_event
closed_at_end input c v e h = ground (arith, append-nil (contents c.input), v)

pub handle_read-by :
    (readv : ℕ → Received) (r : Received) (c : Connection)
    → IsSound c
    → IsValid c.input
    → is_alive c.state ≡ true
    → length c.input.bytes + extrabuf_size ≤ max_size
    → readv (iov_room c.input) ≡ r
    → Fits r (iov_room c.input)
    → Returns
        (handle_read readv c)
        (λ d. Holds (bytes_of r) c d × Heard (ends r) (bytes_of r) c d × (d.output ≡ c.output))
unfolding handle_read
handle_read-by readv (read_failed errno) c s v h room e f =
    rw (read_fd_failed readv errno c.input e) (
      (v, sym (append-nil (contents c.input)), refl),
      (
        record { valid = s.valid; no_file = s.no_file; waits = s.waits },
        refl,
        sym (append-nil c.tasks),
      ),
      refl,
    )
handle_read-by readv (bytes_in []) c s v h room e f =
    Returns-bind _ _ (read_fd readv c.input) _ (read_fd_lem readv [] c.input v room e f)
      λ r p. rw (p.0) (closed_at_end r.1 c p.1 (p.2 ∙ append-nil (contents c.input)) h)
handle_read-by readv (bytes_in (b ∷ bytes)) c s v h room e f =
    Returns-bind _ _ (read_fd readv c.input) _ (read_fd_lem readv (b ∷ bytes) c.input v room e f)
      λ r p.
        let more : (length (b ∷ bytes) == 0) ≡ false = ground arith in
        rw (p.0, more)
          (
            (p.1, p.2, refl),
            (record { valid = s.valid; no_file = s.no_file; waits = s.waits }, refl, refl),
            refl,
          )

-- A write event leaves a closed channel alone.
handle_write_closed :
    (answer : IoResult) (file : FileAnswer) (c : Connection)
    → is_none_event c.channel ≡ true
    → handle_write answer file c ≡ some c
unfolding handle_write is_none_event is_writing
handle_write_closed answer file c h = ground arith

-- It tells the user at most that all is written.
abbrev pub Wrote : List Task → List Task → Type 0
Wrote before after = (after ≡ before) ⊎ (after ≡ before ++ (write_complete ∷ []))

-- What is not about the bytes that wait.
abbrev Kept : Connection → Connection → Type 0
Kept c d = (d.input ≡ c.input) × Wrote c.tasks d.tasks

writing_done-Kept : (c : Connection) → Kept c (writing_done c)
unfolding writing_done disable_events shutdown_in_loop
writing_done-Kept c = ground arith

handle_write-Kept :
    (answer : IoResult) (file : FileAnswer) (c c' : Connection)
    → IsSound c
    → handle_write answer file c ≡ some c'
    → Kept c c'
unfolding handle_write write_output
handle_write-Kept (failed errno) file c c' s e = ground (arith, s.no_file)
handle_write-Kept (count n) file c c' s e = elim (Option-cases (retrieve n c.output)) [
  | inl failing ↦ ground (arith, s.no_file, failing)
  | inr (output, found) ↦
      let d = record c {
        output = output;
        wire = c.wire ++ take n (peek_bytes c.output (readable_bytes c.output));
      } in
      ground (arith, s.no_file, found, writing_done-Kept d)
]

-- A connection, before and after an event.
abbrev pub Served : Bool → List ℕ → Connection → Connection → Type 0
Served true bytes c c' =
    (c'.state ≡ disconnected)
    × (is_none_event c'.channel ≡ true)
    × (c'.channel.added_to_loop ≡ false)
    × (c'.tasks ≡ c.tasks ++ (close_callback ∷ []))
Served false bytes c c' = IsSound c' × (c'.state ≡ c.state) × Wrote (c.tasks ++ told bytes) c'.tasks

pub Heard-Served :
    (closed : Bool) (bytes : List ℕ) (c d : Connection)
    → Heard closed bytes c d
    → Served closed bytes c d
Heard-Served true bytes c d h = h
Heard-Served false bytes c d (s, e, t) = (s, e, inl t)

-- A write event behind what was heard.
pub write-Served :
    (a : Replies) (closed : Bool) (bytes : List ℕ) (c d : Connection)
    → Holds bytes c d
    → Heard closed bytes c d
    → Answers a.write (readable_bytes d.output)
    → Returns (handle_write a.write a.file d) (λ e. Holds bytes c e × Served closed bytes c e)
write-Served a true bytes c d h k ok = rw (handle_write_closed a.write a.file d k.1) (h, k)
write-Served a false bytes c d h (s, st, t) ok =
    let (e, found, p) =
      Returns-some _ (handle_write a.write a.file d) (handle_write-Appends a.write a.file d s ok) in
    let (same, wrote) = handle_write-Kept a.write a.file d e s found in
    rw found (
      (subst IsValid (sym same) h.0, ap contents same ∙ h.1, p.1 ∙ (append-nil (stream d) ∙ h.2)),
      (p.0, p.2 ∙ st, subst (λ x. Wrote x e.tasks) t wrote),
    )
