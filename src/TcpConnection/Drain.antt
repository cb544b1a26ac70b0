-- ===== src/TcpConnection/Drain.antt =====
-- The write event of net/TcpConnection.cpp that sends the last of the waiting bytes.
use cannet.Common.{
  ◌<◌, ◌≡◌, refl, ap, ◌∙◌, true, false, ◌++◌, arith, Returns, Returns-bind, Returns-map, length,
  lt→ltb, ◌==◌, drop-all, take, drop, take-all,
}
use cannet.SocketOps.{count}
use cannet.Channel.{is_writing}
use cannet.Buffer.{readable_bytes, retrieve, peek_bytes}
use cannet.Buffer.Validity.{IsValid, sizes}
use cannet.Buffer.Contents.{contents, retrieve_lem, length-contents}
use cannet.TcpConnection.{
  Connection, disconnecting, FileAnswer, handle_write, write_output, writing_done, disable_events,
  shutdown_in_loop, is_disconnecting,
}

-- The connection once all that waited is with the kernel, before `writing_done`.
abbrev pub Drained : Connection → Connection → Type 0
Drained c d =
    (d.wire ≡ c.wire ++ contents c.output) × (d.state ≡ c.state) × (d.send_file ≡ c.send_file)

pub handle_write-Drained :
    (file_answer : FileAnswer) (c : Connection)
    → IsValid c.output
    → is_writing c.channel ≡ true
    → 0 < readable_bytes c.output
    → Returns
        (handle_write (count (readable_bytes c.output)) file_answer c)
        (λ c'. (d : Connection) × (c' ≡ writing_done d) × Drained c d)
unfolding handle_write write_output peek_bytes
handle_write-Drained file_answer c v w h =
    let n = readable_bytes c.output in
    let more : (n == 0) ≡ false = ground arith in
    let all = ap (λ k. take k (drop c.output.reader_index c.output.bytes)) (sizes c.output v).0 in
    rw (w, lt→ltb 0 n h, more)
      (Returns-bind _ _ (retrieve n c.output) _ (retrieve_lem n c.output v (omega arith))
        λ output p.
          let rest = drop-all n (contents c.output) (omega (arith, length-contents c.output v)) in
          let empty : readable_bytes output ≡ 0 =
            omega (arith, length-contents output p.0, ap length (p.1 ∙ rest)) in
          let waiting = peek_bytes c.output n in
          let front : take n waiting ≡ contents c.output =
            take-all n waiting (omega (arith, ap length all, length-contents c.output v)) ∙ all in
          rw empty (
            record c { output = output; wire = c.wire ++ take n waiting },
            refl,
            (ap (◌++◌ c.wire) front, refl, refl),
          ))

writing_done-IsShut :
    (c : Connection)
    → c.state ≡ disconnecting
    → ((writing_done c).is_shut ≡ true)
      × ((writing_done c).state ≡ disconnecting)
      × ((writing_done c).wire ≡ c.wire)
unfolding writing_done disable_events shutdown_in_loop is_writing is_disconnecting
writing_done-IsShut c e = ground arith

-- In the state `disconnecting`, the write that takes all that waits shuts the write side down.
pub drained-IsShut :
    (file_answer : FileAnswer) (c : Connection)
    → IsValid c.output
    → c.state ≡ disconnecting
    → is_writing c.channel ≡ true
    → 0 < readable_bytes c.output
    → Returns (handle_write (count (readable_bytes c.output)) file_answer c) (λ c'.
      (c'.is_shut ≡ true) × (c'.state ≡ disconnecting) × (c'.wire ≡ c.wire ++ contents c.output))
drained-IsShut file_answer c v e w h =
    Returns-map _ _ (handle_write (count (readable_bytes c.output)) file_answer c)
      (handle_write-Drained file_answer c v w h)
      λ c' r.
        let (d, f, p) = r in
        let (shut, st, wire) = writing_done-IsShut d (p.1 ∙ e) in
        (
          ap (λ (x : Connection). x.is_shut) f ∙ shut,
          ap (λ (x : Connection). x.state) f ∙ st,
          ap (λ (x : Connection). x.wire) f ∙ wire ∙ p.0,
        )
