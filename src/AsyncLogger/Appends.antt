-- ===== src/AsyncLogger/Appends.antt =====
-- What AsyncLogger::append does with the log.
use cannet.Common.{
  ℕ, ◌-◌, ◌≤◌, ◌<◌, ◌≡◌, refl, sym, ap, ◌∙◌, Bool, true, false, Bool-cases, inl, inr, Option, none,
  some, List, [], ◌∷◌, ◌++◌, append-nil, append_assoc, if◌then◌else◌, ltb, ltb→lt, gtb_ℤ, to_int,
  length, length-append, take, arith,
}
use cannet.FixedBuffer.{FixedBuffer, contents, create, avail}
use cannet.FixedBuffer
use cannet.FixedBuffer.Laws.{IsValid, int_max, avail_lem, append-fits}
use cannet.AsyncLogger.{AsyncLogger, append, written, next_buffer}

module _ (size : ℕ) where
  -- A buffer of the logger's size with its position inside.
  abbrev pub Sized : FixedBuffer → Type 0
  Sized b = (length b.store ≡ size) × (b.cur < size)

  abbrev pub Empty : FixedBuffer → Type 0
  Empty b = (length b.store ≡ size) × (b.cur ≡ 0)

  abbrev pub AllSized : List FixedBuffer → Type 0
  AllSized [] = Unit
  AllSized (b ∷ rest) = Sized b × AllSized rest

  -- A next buffer that is there is empty; one that is missing was taken for a full buffer.
  abbrev pub NextSound : Option FixedBuffer → List FixedBuffer → Type 0
  NextSound none buffers = 0 < length buffers
  NextSound (some b) buffers = Empty b

  pub record IsSound (l : AsyncLogger) : Type 0 where
    pub current : Sized l.current
    pub next : NextSound l.next l.buffers
    pub buffers : AllSized l.buffers
    pub new_buffer1 : Empty l.new_buffer1
    pub new_buffer2 : Empty l.new_buffer2

  -- All that was logged: what is in the file, then what the buffers hold.
  abbrev pub stream : AsyncLogger → List ℕ
  stream l = l.file ++ (written l.buffers ++ contents l.current)

  pub AllSized-append :
      (bs : List FixedBuffer) (b : FixedBuffer) → AllSized bs → Sized b → AllSized (bs ++ (b ∷ []))
  AllSized-append [] b h s = (s, tt)
  AllSized-append (c ∷ rest) b h s = (h.0, AllSized-append rest b h.1 s)

  pub written-append :
      (bs : List FixedBuffer) (b : FixedBuffer)
      → written (bs ++ (b ∷ [])) ≡ written bs ++ contents b
  unfolding written
  written-append [] b = append-nil (contents b)
  written-append (c ∷ rest) b =
      ap (λ x. contents c ++ x) (written-append rest b)
      ∙ sym (append_assoc (contents c) (written rest) (contents b))

  pub Sized-FixedBuffer_append :
      (b : FixedBuffer) (logline : List ℕ)
      → size ≤ int_max
      → Sized b
      → length logline < size - b.cur
      → Sized (FixedBuffer.append logline b)
        × (contents (FixedBuffer.append logline b) ≡ contents b ++ logline)
  Sized-FixedBuffer_append b logline m s h =
      let v : IsValid b = record { within = omega (arith, s.0, s.1); small = omega (arith, s.0) } in
      let p = append-fits logline b v (omega (arith, s.0)) in
      let total = p.2 ∙ s.0 in ((total, omega (arith, p.0.within, total)), p.1)

  room_test :
      (b : FixedBuffer) (logline : List ℕ)
      → size ≤ int_max
      → Sized b
      → length logline < size
      → gtb_ℤ (avail b) (to_int (length logline)) ≡ ltb (length logline) (size - b.cur)
  room_test b logline m s h =
      let v : IsValid b = record { within = omega (arith, s.0, s.1); small = omega (arith, s.0) } in
      let e = ap (λ n. n - b.cur) s.0 in ground (arith, avail_lem b v, e)

  pub next_buffer-Empty :
      (next : Option FixedBuffer) (buffers : List FixedBuffer) (fresh : List ℕ)
      → NextSound next buffers
      → length fresh ≡ size
      → Empty (next_buffer next fresh)
  unfolding next_buffer create
  next_buffer-Empty none buffers fresh n f = (f, refl)
  next_buffer-Empty (some b) buffers fresh n f = n

  abbrev pub in_current : List ℕ → AsyncLogger → AsyncLogger
  in_current logline l = record l { current = FixedBuffer.append logline l.current }

  abbrev pub in_next : List ℕ → List ℕ → AsyncLogger → AsyncLogger
  in_next fresh logline l = record l {
    buffers = l.buffers ++ (l.current ∷ []);
    current = FixedBuffer.append logline (next_buffer l.next fresh);
    next = none;
  }

  pub append-choice :
      (fresh logline : List ℕ) (l : AsyncLogger) (b : Bool)
      → size ≤ int_max
      → length logline < size
      → IsSound l
      → ltb (length logline) (size - l.current.cur) ≡ b
      → append fresh logline l ≡ (if b then in_current logline l else in_next fresh logline l)
  unfolding append
  append-choice fresh logline l b m h s e =
      ap (λ t. if t then in_current logline l else in_next fresh logline l)
        (room_test l.current logline m s.current h ∙ e)

  append_in-current :
      (fresh logline : List ℕ) (l : AsyncLogger)
      → size ≤ int_max
      → length logline < size
      → IsSound l
      → ltb (length logline) (size - l.current.cur) ≡ true
      → IsSound (append fresh logline l) × (stream (append fresh logline l) ≡ stream l ++ logline)
  append_in-current fresh logline l m h s fits =
      let p =
        Sized-FixedBuffer_append l.current logline m s.current
          (ltb→lt (length logline) (size - l.current.cur) fits) in
      let held = written l.buffers in
      rw (append-choice fresh logline l true m h s fits) (
        record {
          current = p.0;
          next = s.next;
          buffers = s.buffers;
          new_buffer1 = s.new_buffer1;
          new_buffer2 = s.new_buffer2;
        },
        ap (λ x. l.file ++ (held ++ x)) p.1
            ∙ (ap (λ x. l.file ++ x) (sym (append_assoc held (contents l.current) logline))
                ∙ sym (append_assoc l.file (held ++ contents l.current) logline)),
      )

  append_in-next :
      (fresh logline : List ℕ) (l : AsyncLogger)
      → size ≤ int_max
      → length fresh ≡ size
      → length logline < size
      → IsSound l
      → ltb (length logline) (size - l.current.cur) ≡ false
      → IsSound (append fresh logline l) × (stream (append fresh logline l) ≡ stream l ++ logline)
  append_in-next fresh logline l m f h s full =
      let b = next_buffer l.next fresh in
      let empty = next_buffer-Empty l.next l.buffers fresh s.next f in
      let p =
        Sized-FixedBuffer_append b logline m (empty.0, omega (arith, h, empty.1))
          (omega (arith, h, empty.1)) in
      let only = p.1 ∙ ap (λ n. take n b.store ++ logline) empty.1 in
      let held = written-append l.buffers l.current in
      rw (append-choice fresh logline l false m h s full) (
        record {
          current = p.0;
          next = omega (arith, length-append l.buffers (l.current ∷ []));
          buffers = AllSized-append l.buffers l.current s.buffers s.current;
          new_buffer1 = s.new_buffer1;
          new_buffer2 = s.new_buffer2;
        },
        ap (λ x. l.file ++ (written (l.buffers ++ (l.current ∷ [])) ++ x)) only
            ∙ (ap (λ x. l.file ++ (x ++ logline)) held
                ∙ sym (append_assoc l.file (written l.buffers ++ contents l.current) logline)),
      )

  -- `append` puts a line behind all that was logged, in the current buffer or in another one, where
  -- the line is shorter than a buffer; the logger stays sound.
  pub append_logs :
      (fresh logline : List ℕ) (l : AsyncLogger)
      → size ≤ int_max
      → length fresh ≡ size
      → length logline < size
      → IsSound l
      → IsSound (append fresh logline l) × (stream (append fresh logline l) ≡ stream l ++ logline)
  append_logs fresh logline l m f h s =
      elim (Bool-cases (ltb (length logline) (size - l.current.cur))) [
        | inl fits ↦ append_in-current fresh logline l m h s fits
        | inr full ↦ append_in-next fresh logline l m f h s full
      ]
