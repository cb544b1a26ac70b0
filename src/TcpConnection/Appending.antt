-- ===== src/TcpConnection/Appending.antt =====
-- sendInLoop of net/TcpConnection.cpp puts its data behind what waits.
use cannet.Common.{
  take-append, guard, ◌>>◌, ◌∷◌, ℕ, ◌+◌, ◌≤◌, ◌≡◌, ◌≢◌, refl, sym, ap, ◌∙◌, ◌⊎◌, inl, inr, true,
  false, Option, none, some, List, [], ◌++◌, arith, ltb, leb, le→leb, ◌>>=◌, if◌then◌else◌, Returns,
  Returns-bind, Returns-map, subst, drop-all, Bool-cases, max_size, length, take, drop, slice,
  append_assoc, append-nil, length-zero, take-append-drop, length-drop, take-all,
}
use cannet.SocketOps.{IoResult, failed, count}
use cannet.Events.{k_write_event}
use cannet.Channel.{is_writing}
use cannet.Buffer.{Buffer, append, readable_bytes}
use cannet.Buffer.Validity.{IsValid}
use cannet.Buffer.Contents.{contents, append_lem, length-contents}
use cannet.TcpConnection.{
  Connection, State, disconnected, connecting, connected, disconnecting, finish_send,
  unless_disconnected, Attempt, FileAnswer, send_in_loop, first_attempt, direct_write, buffer_rest,
  enable_events, is_fault,
}

-- All that was given to the connection to send: what the kernel took, and what waits.
abbrev pub stream : Connection → List ℕ
stream c = c.wire ++ contents c.output

-- A connection with no file on its way, whose waiting bytes have write events asked for.
pub record IsSound (c : Connection) : Type 0 where
  pub valid : IsValid c.output
  pub no_file : c.send_file ≡ none
  pub waits : (is_writing c.channel ≡ true) ⊎ (readable_bytes c.output ≡ 0)

enable_write : (c : Connection) → is_writing (enable_events k_write_event c).channel ≡ true
unfolding enable_events is_writing
enable_write c = ground arith

-- The result of a call, against the connection before it: bytes go to the end of the stream.
abbrev pub Appends : List ℕ → Connection → Connection → Type 0
Appends bytes c c' =
    IsSound c'
    × (stream c' ≡ stream c ++ bytes)
    × (c'.state ≡ c.state)
    × (length c'.output.bytes ≤ length c.output.bytes + length bytes)

append-rest-Appends :
    (rest : List ℕ) (c : Connection)
    → IsValid c.output
    → c.send_file ≡ none
    → length c.output.bytes + length rest ≤ max_size
    → Returns
        (append rest c.output >>= λ output.
          let c' = record c { output = output } in
          some (if is_writing c'.channel then c' else enable_events k_write_event c'))
        (Appends rest c)
append-rest-Appends rest c v f room =
    Returns-bind _ (Appends rest c) (append rest c.output) _ (append_lem rest c.output v room)
      λ output p.
        let c' = record c { output = output } in
        ground (
          arith,
          f,
          p,
          enable_write c',
          enable_kept c',
          append_assoc c.wire (contents c.output) rest,
        )
  where
    enable_kept :
        (d : Connection)
        → let e = enable_events k_write_event d in
          (e.output ≡ d.output)
          × (e.wire ≡ d.wire)
          × (e.send_file ≡ d.send_file)
          × (e.state ≡ d.state)
    enable_kept d = unfold enable_events in (refl, refl, refl, refl)

-- The first part of `sendInLoop`: it took a front of the data, and only where nothing waits.
record Fair (data_bytes : List ℕ) (c : Connection) (a : Attempt) : Type 0 where
  output : a.conn.output ≡ c.output
  channel : a.conn.channel ≡ c.channel
  file : a.conn.send_file ≡ none
  state : a.conn.state ≡ c.state
  wire : a.conn.wire ≡ c.wire ++ take a.nwrote data_bytes
  within : a.nwrote + a.remaining ≡ length data_bytes
  first : (a.nwrote ≡ 0) ⊎ (readable_bytes c.output ≡ 0)
  no_fault : a.fault_error ≡ false

-- What the kernel may answer to a write of `len` bytes, where no fault ends the connection.
abbrev pub Answers : IoResult → ℕ → Type 0
Answers (count n) len = n ≤ len
Answers (failed errno) len = is_fault errno ≡ false

first_attempt-Fair :
    (answer : IoResult) (data_bytes : List ℕ) (c : Connection)
    → IsSound c
    → Answers answer (length data_bytes)
    → length data_bytes ≤ max_size
    → Fair data_bytes c (first_attempt answer data_bytes (length data_bytes) c)
unfolding first_attempt direct_write
first_attempt-Fair (count n) data_bytes c s h small = ground (arith, append-nil c.wire, s.no_file)
first_attempt-Fair (failed errno) data_bytes c s h small =
    ground (arith, append-nil c.wire, s.no_file)

regroup :
    (wire waiting xs : List ℕ) (n : ℕ)
    → (n ≡ 0) ⊎ (waiting ≡ [])
    → (wire ++ take n xs) ++ waiting ++ drop n xs ≡ wire ++ waiting ++ xs
regroup wire waiting xs n (inl e) = rw (e, append-nil wire)
regroup wire waiting xs n (inr e) =
    rw (e, append-nil (wire ++ take n xs), append-nil wire)
      (append_assoc wire (take n xs) (drop n xs) ∙ ap (◌++◌ wire) (take-append-drop n xs))

nothing_waits : (b : Buffer) → IsValid b → readable_bytes b ≡ 0 → contents b ≡ []
nothing_waits b v e = length-zero (contents b) (omega (arith, length-contents b v))

first-waits :
    (c : Connection) (n : ℕ)
    → IsSound c
    → (n ≡ 0) ⊎ (readable_bytes c.output ≡ 0)
    → (n ≡ 0) ⊎ (contents c.output ≡ [])
first-waits c n s (inl e) = inl e
first-waits c n s (inr e) = inr (nothing_waits c.output s.valid e)

-- The second part keeps the order: what was not taken goes behind what waits.
buffer_rest-Appends :
    (data_bytes : List ℕ) (c : Connection) (a : Attempt)
    → IsSound c
    → Fair data_bytes c a
    → length c.output.bytes + length data_bytes ≤ max_size
    → Returns (buffer_rest data_bytes a) (Appends data_bytes c)
unfolding buffer_rest
buffer_rest-Appends data_bytes c a s f room =
    let rest = slice data_bytes a.nwrote a.remaining in
    let dropped = length-drop a.nwrote data_bytes in
    let whole : rest ≡ drop a.nwrote data_bytes =
      take-all a.remaining (drop a.nwrote data_bytes) (omega (arith, dropped, f.within)) in
    let size : length rest ≤ length data_bytes = omega (arith, ap length whole, dropped) in
    let kept : length a.conn.output.bytes ≡ length c.output.bytes =
      ap (λ (b : Buffer). length b.bytes) f.output in
    let joined =
      regroup c.wire (contents c.output) data_bytes a.nwrote (first-waits c a.nwrote s f.first) in
    Returns-map (Appends rest a.conn) (Appends data_bytes c) _
      (append-rest-Appends rest a.conn (subst IsValid (sym f.output) s.valid) f.file (omega arith))
      λ c' p. (
        p.0,
        p.1
            ∙ ap (λ w. w ++ contents a.conn.output ++ rest) f.wire
            ∙ ap (λ b. (c.wire ++ take a.nwrote data_bytes) ++ contents b ++ rest) f.output
            ∙ ap (λ r. (c.wire ++ take a.nwrote data_bytes) ++ contents c.output ++ r) whole
            ∙ joined,
        p.2 ∙ f.state,
        omega (arith, p.3),
      )

-- Nothing is left: the kernel took the data whole, or there was none.
taken-Appends :
    (data_bytes : List ℕ) (c : Connection) (a : Attempt)
    → IsSound c
    → Fair data_bytes c a
    → a.remaining ≡ 0
    → Appends data_bytes c a.conn
taken-Appends data_bytes c a s f e =
    let all = take-all a.nwrote data_bytes (omega (arith, f.within)) in
    let none_left : drop a.nwrote data_bytes ≡ [] =
      drop-all a.nwrote data_bytes (omega (arith, f.within)) in
    let joined =
      regroup c.wire (contents c.output) data_bytes a.nwrote (first-waits c a.nwrote s f.first) in
    (
      record { valid = subst IsValid (sym f.output) s.valid; no_file = f.file; waits = waits },
      ap (λ w. w ++ contents a.conn.output) f.wire
          ∙ ap (λ b. (c.wire ++ take a.nwrote data_bytes) ++ contents b) f.output
          ∙ sym (append-nil _)
          ∙ ap (λ r. (c.wire ++ take a.nwrote data_bytes) ++ contents c.output ++ r) (sym none_left)
          ∙ joined,
      f.state,
      omega (arith, ap (λ (b : Buffer). length b.bytes) f.output),
    )
  where
    waits : (is_writing a.conn.channel ≡ true) ⊎ (readable_bytes a.conn.output ≡ 0)
    waits = elim s.waits [
      | inl w ↦ inl (ap is_writing f.channel ∙ w)
      | inr r ↦ inr (ap readable_bytes f.output ∙ r)
    ]

abbrev pub IsOpen : State → Type 0
IsOpen s = s ≢ disconnected

finish_send-Appends :
    (file_answer : FileAnswer) (data_bytes : List ℕ) (c : Connection) (a : Attempt)
    → IsSound c
    → Fair data_bytes c a
    → length c.output.bytes + length data_bytes ≤ max_size
    → Returns (finish_send file_answer data_bytes (length data_bytes) a) (Appends data_bytes c)
unfolding finish_send
finish_send-Appends file_answer data_bytes c a s f room =
    let fits : leb a.remaining (length data_bytes) ≡ true = le→leb _ _ (omega (arith, f.within)) in
    elim (Bool-cases (ltb 0 a.remaining)) [
      | inl e ↦ rw (fits, f.no_fault, e) (buffer_rest-Appends data_bytes c a s f room)
      | inr e ↦
          rw (fits, f.no_fault, e, f.file, finish_send)
            (taken-Appends data_bytes c a s f (ground arith))
    ]

unless_disconnected-open :
    (st : State) (c : Connection) (sent : Option Connection)
    → IsOpen st
    → unless_disconnected st c sent ≡ sent
unfolding unless_disconnected
unless_disconnected-open disconnected c sent h = absurd (h refl)
unless_disconnected-open connecting c sent h = refl
unless_disconnected-open connected c sent h = refl
unless_disconnected-open disconnecting c sent h = refl

-- `sendInLoop` on a connection that is not closed: whatever part of the data the kernel takes, the
-- rest goes behind what waits, and write events are asked for as long as something waits.
pub send_in_loop-Appends :
    (answer : IoResult) (file_answer : FileAnswer) (data_bytes : List ℕ) (c : Connection)
    → IsSound c
    → IsOpen c.state
    → Answers answer (length data_bytes)
    → length c.output.bytes + length data_bytes ≤ max_size
    → Returns
        (send_in_loop answer file_answer data_bytes (length data_bytes) c)
        (Appends data_bytes c)
unfolding send_in_loop
send_in_loop-Appends answer file_answer data_bytes c s open_state h room =
    let fits = le→leb (length data_bytes) (length data_bytes + 1) (omega arith) in
    let whole = take-append (length data_bytes) data_bytes (0 ∷ []) refl in
    let len = length data_bytes in
    subst
      (λ bytes.
        Returns
          (unless_disconnected c.state c (
            guard (leb len (len + 1))
            >> finish_send file_answer bytes len (first_attempt answer bytes len c)))
          (Appends data_bytes c))
      (sym whole)
      (rw (unless_disconnected-open c.state c _ open_state, fits)
        (finish_send-Appends file_answer data_bytes c
          (first_attempt answer data_bytes (length data_bytes) c) s
          (first_attempt-Fair answer data_bytes c s h (omega arith)) room))
