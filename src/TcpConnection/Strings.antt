-- ===== src/TcpConnection/Strings.antt =====
-- send(Buffer *) of net/TcpConnection.cpp makes a string of a pointer, which ends at the first 0.
use cannet.Common.{
  ℕ, zero, suc, ◌+◌, ◌<◌, ◌≡◌, refl, ap, Bool, true, false, ◌||◌, ◌==◌, none, some, List, [], ◌∷◌,
  length, take, drop, leb, arith, ◌>>=◌,
}
use cannet.SocketOps.{IoResult}
use cannet.Buffer.{Buffer, readable_bytes, peek_bytes, retrieve_all}
use cannet.TcpConnection.{Connection, connected, FileAnswer, send_in_loop, unless_disconnected}
use cannet.TcpConnection.Control.{is_connected, c_string, send_buffer}

-- A 0 is among the bytes.
abbrev pub has_nul : List ℕ → Bool
has_nul [] = false
has_nul (c ∷ rest) = c == 0 || has_nul rest

c_string-short :
    (n : ℕ) (bytes : List ℕ)
    → has_nul (take n bytes) ≡ true
    → (message : List ℕ) × (c_string bytes ≡ some message) × (length message < n)
unfolding c_string
c_string-short zero bytes h = absurd (cc)
c_string-short (suc n) [] h = absurd (cc)
c_string-short (suc n) (zero ∷ rest) h = ([], refl, omega arith)
c_string-short (suc n) (suc c ∷ rest) h =
    let (more, e, l) = c_string-short n rest (ground (arith, h)) in
    (suc c ∷ more, rw e refl, omega (arith, l))

-- sendInLoop is asked for more bytes than it is given.
send_short :
    (answer : IoResult) (file_answer : FileAnswer) (message : List ℕ) (len : ℕ) (c : Connection)
    → c.state ≡ connected
    → leb len (length message + 1) ≡ false
    → send_in_loop answer file_answer message len c ≡ none
unfolding send_in_loop unless_disconnected
send_short answer file_answer message len c e over = rw (e, over) refl

-- A message with a 0 among its bytes, before the last one, cannot be sent from a buffer: the string ends
-- there, and sendInLoop is asked for more bytes than it has.
pub send_buffer_nul :
    (answer : IoResult) (file_answer : FileAnswer) (n : ℕ) (b : Buffer) (c : Connection)
    → c.state ≡ connected
    → readable_bytes b ≡ suc n
    → has_nul (peek_bytes b n) ≡ true
    → send_buffer answer file_answer b c ≡ none
unfolding send_buffer peek_bytes is_connected
send_buffer_nul answer file_answer n b c e size h =
    let (message, m, short) = c_string-short n (drop b.reader_index b.bytes) h in
    let over : leb (readable_bytes b) (length message + 1) ≡ false = ground (arith, short, size) in
    let established = record c { state = connected } in
    let refused = send_short answer file_answer message (readable_bytes b) established refl over in
    rw (e, m) (ap (λ r. r >>= λ c'. some (c', retrieve_all b)) refused)
