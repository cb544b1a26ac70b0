-- ===== src/AsyncLogger/Growth.antt =====
-- How AsyncLogger::append fills the buffers.
use cannet.Common.{
  ℕ, suc, ◌+◌, ◌-◌, ◌*◌, ◌≤◌, ◌<◌, ◌≡◌, refl, sym, ap, ◌∙◌, Bool, true, false, Bool-cases, inl, inr,
  List, [], ◌∷◌, ◌++◌, append-nil, append_assoc, ltb, ltb→lt, length, length-append, length-take,
  arith,
}
use cannet.FixedBuffer.{FixedBuffer, contents}
use cannet.FixedBuffer
use cannet.FixedBuffer.Laws.{int_max}
use cannet.AsyncLogger.{AsyncLogger, append, written, next_buffer, Line, append_all}
use cannet.AsyncLogger.Appends.{
  Sized, IsSound, stream, written-append, append-choice, next_buffer-Empty,
  Sized-FixedBuffer_append, append_logs,
}

-- The bytes of some lines, one behind the other.
abbrev pub texts : List Line → List ℕ
texts [] = []
texts (line ∷ rest) = line.text ++ texts rest

module _ (size : ℕ) where
  -- Each line is shorter than a buffer.
  abbrev pub AllShort : List Line → Type 0
  AllShort [] = Unit
  AllShort (line ∷ rest) = (length line.fresh ≡ size) × (length line.text < size) × AllShort rest

  -- Two full buffers in a row hold more than one buffer's size.
  abbrev pub Dense : AsyncLogger → Type 0
  Dense l = length l.buffers * size ≤ 2 * length (written l.buffers) + l.current.cur

  pub length-contents : (b : FixedBuffer) → Sized size b → length (contents b) ≡ b.cur
  length-contents b s = omega (arith, length-take b.cur b.store, s.0, s.1)

  cur-append :
      (b : FixedBuffer) (logline : List ℕ)
      → size ≤ int_max
      → Sized size b
      → length logline < size - b.cur
      → (FixedBuffer.append logline b).cur ≡ b.cur + length logline
  cur-append b logline m s h =
      let p = Sized-FixedBuffer_append size b logline m s h in
      omega (
        arith,
        ap length p.1,
        length-append (contents b) logline,
        length-contents b s,
        length-contents (FixedBuffer.append logline b) p.0,
      )

  append_in-Dense :
      (fresh logline : List ℕ) (l : AsyncLogger) (b : Bool)
      → size ≤ int_max
      → length fresh ≡ size
      → length logline < size
      → IsSound size l
      → ltb (length logline) (size - l.current.cur) ≡ b
      → Dense l
      → Dense (append fresh logline l)
  append_in-Dense fresh logline l true m f h s e d =
      let room = ltb→lt (length logline) (size - l.current.cur) e in
      rw (append-choice size fresh logline l true m h s e)
        (omega (arith, d, cur-append l.current logline m s.current room))
  append_in-Dense fresh logline l false m f h s e d =
      let b = next_buffer l.next fresh in
      let empty = next_buffer-Empty size l.next l.buffers fresh s.next f in
      let used =
        cur-append b logline m (empty.0, omega (arith, h, empty.1)) (omega (arith, h, empty.1)) in
      let full : size ≤ length logline + l.current.cur = ground (arith, e, s.current) in
      let one_more : length (l.buffers ++ (l.current ∷ [])) ≡ suc (length l.buffers) =
        omega (arith, length-append l.buffers (l.current ∷ [])) in
      let bytes : length (written (l.buffers ++ (l.current ∷ [])))
          ≡ length (written l.buffers) + l.current.cur =
        omega (
          arith,
          ap length (written-append size l.buffers l.current),
          length-append (written l.buffers) (contents l.current),
          length-contents l.current s.current,
        ) in
      rw (append-choice size fresh logline l false m h s e, one_more, bytes)
        (grind (arith, d, used, empty.1, full))

  -- Lines appended go behind the stream, leave the file alone, and keep the buffers dense.
  pub record Grown (bytes : List ℕ) (l l' : AsyncLogger) : Type 0 where
    pub sound : IsSound size l'
    pub dense : Dense l'
    pub stream_grows : stream size l' ≡ stream size l ++ bytes
    pub same_file : l'.file ≡ l.file

  pub append-file :
      (fresh logline : List ℕ) (l : AsyncLogger) → (append fresh logline l).file ≡ l.file
  unfolding append
  append-file fresh logline l = ground arith

  pub append_all-Grown :
      (lines : List Line) (l : AsyncLogger)
      → size ≤ int_max
      → AllShort lines
      → IsSound size l
      → Dense l
      → Grown (texts lines) l (append_all lines l)
  unfolding append_all
  append_all-Grown [] l m h s d = record {
    sound = s;
    dense = d;
    stream_grows = sym (append-nil (stream size l));
    same_file = refl;
  }
  append_all-Grown (line ∷ rest) l m (f, h, more) s d =
      let l' = append line.fresh line.text l in
      let (s', e) = append_logs size line.fresh line.text l m f h s in
      let d' : Dense l' = elim (Bool-cases (ltb (length line.text) (size - l.current.cur))) [
        | inl fits ↦ append_in-Dense line.fresh line.text l true m f h s fits d
        | inr full ↦ append_in-Dense line.fresh line.text l false m f h s full d
      ] in
      let g = append_all-Grown rest l' m more s' d' in
      record {
        sound = g.sound;
        dense = g.dense;
        stream_grows =
            g.stream_grows
            ∙ (ap (λ x. x ++ texts rest) e ∙ append_assoc (stream size l) line.text (texts rest));
        same_file = g.same_file ∙ append-file line.fresh line.text l;
      }
