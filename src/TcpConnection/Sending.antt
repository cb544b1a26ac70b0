-- ===== src/TcpConnection/Sending.antt =====
-- What net/TcpConnection.cpp sends: no byte is lost, repeated or overtaken.
use cannet.Common.{
  ℕ, ◌+◌, ◌≤◌, ◌≡◌, refl, sym, ap, ◌∙◌, inl, inr, true, Option, some, List, [], ◌∷◌, ◌++◌, arith,
  min, ltb, ◌==◌, ◌>>=◌, Returns, Returns-bind, Returns-map, subst, Bool-cases, max_size, length,
  length-append, take, slice, append_assoc, append-nil, take-append-drop, length-append,
}
use cannet.SocketOps.{IoResult, failed, count}
use cannet.Channel.{is_writing}
use cannet.Buffer.{retrieve, readable_bytes, peek_bytes}
use cannet.Buffer.Validity.{sizes}
use cannet.Buffer.Contents.{contents, retrieve_lem}
use cannet.TcpConnection.{
  Connection, FileAnswer, file_failed, send_in_loop, disable_events, handle_write, write_output,
  writing_done, shutdown_in_loop,
}
use cannet.TcpConnection.Appending.{stream, IsSound, Appends, Answers, IsOpen, send_in_loop-Appends}

-- What `handleWrite` does after the bytes are gone does not touch them.
writing_done-kept :
    (c : Connection)
    → let d = writing_done c in
      (d.output ≡ c.output) × (d.wire ≡ c.wire) × (d.send_file ≡ c.send_file) × (d.state ≡ c.state)
unfolding writing_done disable_events shutdown_in_loop
writing_done-kept c = ground arith

flushed-Appends :
    (answer : IoResult) (c : Connection)
    → IsSound c
    → is_writing c.channel ≡ true
    → Answers answer (readable_bytes c.output)
    → Returns (write_output answer c) (Appends [] c)
unfolding write_output peek_bytes
flushed-Appends (failed errno) c s w h = (s, sym (append-nil (stream c)), refl, omega arith)
flushed-Appends (count n) c s w h = elim (Bool-cases (n == 0)) [
  | inl e ↦ rw e (s, sym (append-nil (stream c)), refl, omega arith)
  | inr e ↦ rw e (
      Returns-bind _ (Appends [] c) (retrieve n c.output) _ (retrieve_lem n c.output s.valid h)
        λ output p.
          let c' = record c {
            output = output;
            wire =
                c.wire
                ++ take n (slice c.output.bytes c.output.reader_index (readable_bytes c.output));
          } in
          let joined =
            append_assoc c.wire (take n (contents c.output)) (contents output)
            ∙ ap (λ r. c.wire ++ (take n (contents c.output) ++ r)) p.1
            ∙ ap (◌++◌ c.wire) (take-append-drop n (contents c.output)) in
          ground (
            arith,
            p,
            s.no_file,
            writing_done-kept c',
            sizes c.output s.valid,
            joined,
            append-nil (stream c),
          ))
]

-- `handleWrite` moves bytes from the front of what waits to the kernel, as many as it takes; the
-- stream stays as it was.
pub handle_write-Appends :
    (answer : IoResult) (file_answer : FileAnswer) (c : Connection)
    → IsSound c
    → Answers answer (readable_bytes c.output)
    → Returns (handle_write answer file_answer c) (Appends [] c)
unfolding handle_write
handle_write-Appends answer file_answer c s h = elim (Bool-cases (is_writing c.channel)) [
  | inl e ↦ elim (Bool-cases (ltb 0 (readable_bytes c.output))) [
    | inl g ↦ rw (e, g) (flushed-Appends answer c s e h)
    | inr g ↦ rw (e, g, s.no_file) (s, sym (append-nil (stream c)), refl, omega arith)
  ]
  | inr e ↦ rw e (s, sym (append-nil (stream c)), refl, omega arith)
]

-- What the loop does with a connection: a send, or a write event; the kernel takes up to `k` bytes.
pub data Event : Type 0 where
  sends : List ℕ → ℕ → Event
  writable : ℕ → Event

play : Event → Connection → Option Connection
unfolding send_in_loop handle_write
play (sends bytes k) c =
    send_in_loop (count (min k (length bytes))) (file_failed 0) bytes (length bytes) c
play (writable k) c = handle_write (count (min k (readable_bytes c.output))) (file_failed 0) c

unfoldable pub play_all : List Event → Connection → Option Connection
unfolding play
play_all [] c = some c
play_all (e ∷ rest) c = play e c >>= play_all rest

abbrev event_bytes : Event → List ℕ
event_bytes (sends bytes k) = bytes
event_bytes (writable k) = []

-- All the bytes that are sent, in order.
abbrev pub sent_bytes : List Event → List ℕ
sent_bytes [] = []
sent_bytes (e ∷ rest) = event_bytes e ++ sent_bytes rest

play-Appends :
    (e : Event) (c : Connection)
    → IsSound c
    → IsOpen c.state
    → length c.output.bytes + length (event_bytes e) ≤ max_size
    → Returns (play e c) (Appends (event_bytes e) c)
unfolding play
play-Appends (sends bytes k) c s o h =
    send_in_loop-Appends (count (min k (length bytes))) (file_failed 0) bytes c s o (omega arith) h
play-Appends (writable k) c s o h =
    handle_write-Appends (count (min k (readable_bytes c.output))) (file_failed 0) c s (omega arith)

-- Whatever is sent, and however much the kernel takes each time: what it has taken so far, with what
-- still waits, is the sequence of all bytes that were sent, in order, and as long as some wait, write
-- events are asked for.
pub play_all-Appends :
    (events : List Event) (c : Connection)
    → IsSound c
    → IsOpen c.state
    → length c.output.bytes + length (sent_bytes events) ≤ max_size
    → Returns (play_all events c) (Appends (sent_bytes events) c)
unfolding play_all
play_all-Appends [] c s o h = (s, sym (append-nil (stream c)), refl, omega arith)
play_all-Appends (e ∷ rest) c s o h =
    let size = length-append (event_bytes e) (sent_bytes rest) in
    Returns-bind (Appends (event_bytes e) c) (Appends (sent_bytes (e ∷ rest)) c) (play e c)
      (play_all rest) (play-Appends e c s o (omega (arith, size)))
      λ c' p.
        Returns-map (Appends (sent_bytes rest) c') (Appends (sent_bytes (e ∷ rest)) c)
          (play_all rest c')
          (play_all-Appends rest c' p.0 (subst IsOpen (sym p.2) o) (omega (arith, size, p.3)))
          λ c'' q. (
            q.0,
            q.1
                ∙ ap (λ s'. s' ++ sent_bytes rest) p.1
                ∙ append_assoc (stream c) (event_bytes e) (sent_bytes rest),
            q.2 ∙ p.2,
            omega (arith, size, p.3, q.3),
          )
