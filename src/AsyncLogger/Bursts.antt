-- ===== src/AsyncLogger/Bursts.antt =====
-- How much may be logged between two turns of AsyncLogger::threadFun.
use cannet.Common.{
  ℕ, ◌+◌, ◌*◌, ◌≤◌, ◌<◌, ◌≡◌, refl, sym, ap, ◌∙◌, List, [], ◌∷◌, ◌++◌, append-nil, append_assoc,
  length, length-append, length-replicate, Returns, Returns-bind, Returns-map, arith, take,
}
use native.Mathlib.Nat.{lt_of_mul-lt-mul_right}
use cannet.FixedBuffer.{FixedBuffer, contents}
use cannet.FixedBuffer
use cannet.FixedBuffer.Laws.{int_max}
use cannet.AsyncLogger.{
  AsyncLogger, append, written, round, Line, append_all, thread_fun, serve, create,
}
use cannet.AsyncLogger.Appends.{IsSound, stream}
use cannet.AsyncLogger.Rounds.{round_writes}
use cannet.AsyncLogger.Growth.{
  texts, AllShort, Dense, Grown, length-contents, append-file, append_all-Grown,
}

-- The bytes that all turns append.
abbrev pub all_texts : List (List Line) → List ℕ
all_texts [] = []
all_texts (lines ∷ turns) = texts lines ++ all_texts turns

module _ (size : ℕ) where
  -- What is appended in each turn is short, and together less than twelve and a half buffers.
  abbrev pub KeepsUp : List (List Line) → Type 0
  KeepsUp [] = Unit
  KeepsUp (lines ∷ turns) =
      AllShort size lines × (2 * length (texts lines) < 25 * size) × KeepsUp turns

  -- A logger that holds no line.
  pub record IsRested (l : AsyncLogger) : Type 0 where
    pub sound : IsSound size l
    pub no_buffers : l.buffers ≡ []
    pub unused : l.current.cur ≡ 0

  rested_stream : (l : AsyncLogger) → IsRested l → stream size l ≡ l.file
  unfolding written
  rested_stream l r =
      ap (λ bs. l.file ++ (written bs ++ contents l.current)) r.no_buffers
      ∙ (ap (λ n. l.file ++ take n l.current.store) r.unused ∙ append-nil l.file)

  settled :
      (l : AsyncLogger) → IsSound size l → l.buffers ≡ [] → stream size l ≡ l.file → IsRested l
  unfolding written
  settled l s e h =
      let parts = length-append l.file (written l.buffers ++ contents l.current) in
      let more = length-append (written l.buffers) (contents l.current) in
      record {
        sound = s;
        no_buffers = e;
        unused = omega (arith, ap length h, parts, more, length-contents size l.current s.current);
      }

  -- Fewer than 25 buffers are full.
  few_buffers :
      (bytes : List ℕ) (l l' : AsyncLogger)
      → IsRested l
      → Grown size bytes l l'
      → 2 * length bytes < 25 * size
      → length l'.buffers < 25
  few_buffers bytes l l' r g h =
      let held : length (stream size l') ≡ length (l.file ++ bytes) =
        ap length (g.stream_grows ∙ ap (λ x. x ++ bytes) (rested_stream l r)) in
      let parts = length-append l'.file (written l'.buffers ++ contents l'.current) in
      let more = length-append (written l'.buffers) (contents l'.current) in
      let total : length (written l'.buffers) + l'.current.cur ≡ length bytes = omega (
        arith,
        held,
        parts,
        more,
        length-append l.file bytes,
        ap length g.same_file,
        length-contents size l'.current g.sound.current,
      ) in
      lt_of_mul-lt-mul_right size (omega (arith, g.dense, total, h))

  rested-Dense : (l : AsyncLogger) → IsRested l → Dense size l
  rested-Dense l r = rw r.no_buffers (omega arith)

  -- The loop of threadFun, where the bytes appended in each turn are less than twelve and a half
  -- buffers hold: every turn succeeds, and what was appended is in the file, in order.
  thread_fun-Wrote :
      (turns : List (List Line)) (l : AsyncLogger)
      → 0 < size
      → size ≤ int_max
      → KeepsUp turns
      → IsRested l
      → Returns (thread_fun turns l) (λ l'. IsRested l' × (l'.file ≡ l.file ++ all_texts turns))
  unfolding thread_fun
  thread_fun-Wrote [] l z m h r = (r, sym (append-nil l.file))
  thread_fun-Wrote (lines ∷ turns) l z m (short, few, more) r =
      let g = append_all-Grown size lines l m short r.sound (rested-Dense l r) in
      let l' = append_all lines l in
      Returns-bind _ _ (round l') _
        (round_writes size l' z (few_buffers (texts lines) l l' r g few) g.sound)
        (λ t p.
          let wrote : t.file ≡ l.file ++ texts lines =
            p.1 ∙ (g.stream_grows ∙ ap (λ x. x ++ texts lines) (rested_stream l r)) in
          Returns-map _ _ (thread_fun turns t)
            (thread_fun-Wrote turns t z m more (settled t p.0 p.3 (p.2 ∙ sym p.1)))
            (λ u q. (
              q.0,
              q.1
                  ∙ (ap (λ x. x ++ all_texts turns) wrote
                      ∙ append_assoc l.file (texts lines) (all_texts turns)),
            )))

  append_all-file : (lines : List Line) (l : AsyncLogger) → (append_all lines l).file ≡ l.file
  unfolding append_all
  append_all-file [] l = refl
  append_all-file (line ∷ rest) l =
      append_all-file rest (append line.fresh line.text l) ∙ append-file size line.fresh line.text l

  -- From a logger that holds no line, as a new one is, where the lines of each turn are shorter than a
  -- buffer and together less than twelve and a half buffers: the thread gets through all of its turns,
  -- its asserts hold, and the file ends in all that was appended, in order; what is appended after the
  -- last critical section is not written.
  pub serve-Wrote :
      (turns : List (List Line)) (late : List Line) (l : AsyncLogger)
      → 0 < size
      → size ≤ int_max
      → KeepsUp turns
      → IsRested l
      → Returns (serve turns late l) (λ l'. l'.file ≡ l.file ++ all_texts turns)
  unfolding serve
  serve-Wrote turns late l z m h r =
      Returns-bind _ _ (thread_fun turns l) _ (thread_fun-Wrote turns l z m h r)
        (λ l' p. append_all-file late l' ∙ p.1)

  -- The constructor leaves such a logger.
  pub create-IsRested :
      (a b c d : List ℕ)
      → length a ≡ size
      → length b ≡ size
      → length c ≡ size
      → length d ≡ size
      → 0 < size
      → IsRested (create a b c d)
  unfolding create FixedBuffer.create FixedBuffer.reset_data
  create-IsRested a b c d e f g h z =
      let blank : ℕ = 0 in
      let empty = λ (n : ℕ) (p : n ≡ size). length-replicate n blank ∙ p in
      record {
        sound = record {
          current = (empty (length a) e, z);
          next = (empty (length b) f, refl);
          buffers = tt;
          new_buffer1 = (empty (length c) g, refl);
          new_buffer2 = (empty (length d) h, refl);
        };
        no_buffers = refl;
        unused = refl;
      }
