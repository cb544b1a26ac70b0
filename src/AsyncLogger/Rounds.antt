-- ===== src/AsyncLogger/Rounds.antt =====
-- What one turn of AsyncLogger::threadFun does with the log.
use cannet.Common.{
  ℕ, ◌+◌, ◌≤◌, ◌<◌, ◌≡◌, refl, ap, ◌∙◌, Bool, true, false, ◌==◌, Option, none, some, List, [], ◌∷◌,
  ◌++◌, append-nil, if◌then◌else◌, ltb, length, length-append, length-take, take-append_le, take,
  min, Returns-bind, Returns-map, Returns, arith,
}
use cannet.FixedBuffer.{FixedBuffer, contents, create, avail}
use cannet.FixedBuffer
use cannet.AsyncLogger.{
  AsyncLogger, written, pop_back, recycle, hand_on, keep_two, drop_excess, round,
}
use cannet.AsyncLogger.Appends.{
  AllSized, NextSound, Empty, IsSound, stream, AllSized-append, written-append,
}

module _ (size : ℕ) where
  -- A buffer that was handed on is taken from the pool as well.
  abbrev Enough : Option FixedBuffer → ℕ → Type 0
  Enough none n = n ≡ 2
  Enough (some b) n = Empty size b × (0 < n)

  recycle-Empty :
      (pool : List FixedBuffer) (spare : Option FixedBuffer)
      → 0 < size
      → AllSized size pool
      → length pool ≤ 2
      → Enough spare (length pool)
      → Returns (recycle pool spare) (λ r. Empty size r.0 × Empty size r.1)
  unfolding recycle pop_back FixedBuffer.reset
  recycle-Empty [] none z h n s = absurd (omega (arith, s))
  recycle-Empty [] (some b) z h n s = absurd (omega (arith, s.1))
  recycle-Empty (b ∷ []) none z h n s = absurd (omega (arith, s))
  recycle-Empty (b ∷ []) (some c) z h n s = ((h.0.0, refl), s.0)
  recycle-Empty (b ∷ c ∷ []) none z h n s = ((h.1.0.0, refl), (h.0.0, refl))
  recycle-Empty (b ∷ c ∷ []) (some d) z h n s = ((h.1.0.0, refl), s.0)
  recycle-Empty (b ∷ c ∷ d ∷ rest) spare z h n s = absurd (omega (arith, n))

  AllSized-take : (bs : List FixedBuffer) → AllSized size bs → AllSized size (take 2 bs)
  AllSized-take [] h = tt
  AllSized-take (b ∷ []) h = h
  AllSized-take (b ∷ c ∷ rest) h = (h.0, (h.1.0, tt))

  if-AllSized :
      (t : Bool) (bs cs : List FixedBuffer)
      → AllSized size bs
      → AllSized size cs
      → AllSized size (if t then bs else cs)
  if-AllSized true bs cs h k = h
  if-AllSized false bs cs h k = k

  keep_two_lem :
      (bs : List FixedBuffer)
      → AllSized size bs
      → AllSized size (keep_two bs) × (length (keep_two bs) ≡ min 2 (length bs))
  unfolding keep_two
  keep_two_lem bs h = (
    if-AllSized (ltb 2 (length bs)) (take 2 bs) bs (AllSized-take bs h) h,
    ground (arith, length-take {A = FixedBuffer} 2 bs),
  )

  drop_excess_lem :
      (bs : List FixedBuffer)
      → AllSized size bs
      → AllSized size (drop_excess bs) × (min 2 (length (drop_excess bs)) ≡ min 2 (length bs))
  unfolding drop_excess
  drop_excess_lem bs h = (
    if-AllSized (ltb 25 (length bs)) (take 2 bs) bs (AllSized-take bs h) h,
    ground (arith, length-take {A = FixedBuffer} 2 bs),
  )

  Enough-hand_on :
      (next : Option FixedBuffer) (buffers : List FixedBuffer) (b : FixedBuffer) (n : ℕ)
      → NextSound size next buffers
      → Empty size b
      → n ≡ min 2 (length buffers + 1)
      → Enough (hand_on next b).1 n × NextSound size (hand_on next b).0 []
  unfolding hand_on
  Enough-hand_on none buffers b n s e h = (omega (arith, s), e)
  Enough-hand_on (some c) buffers b n s e h = ((e, omega arith), s)

  -- The asserts of a turn hold, and it leaves the logger sound with nothing but empty buffers.
  pub round-Writes :
      (l : AsyncLogger)
      → 0 < size
      → IsSound size l
      → Returns (round l) (λ l'.
        IsSound size l'
        × (stream size l' ≡ l'.file)
        × (l'.file ≡ l.file ++ written (drop_excess (l.buffers ++ (l.current ∷ []))))
        × (l'.buffers ≡ []))
  unfolding round written
  round-Writes l z s =
      let all = l.buffers ++ (l.current ∷ []) in
      let to_write = drop_excess all in
      let d = drop_excess_lem all (AllSized-append size l.buffers l.current s.buffers s.current) in
      let k = keep_two_lem to_write d.0 in
      let n = length-append l.buffers (l.current ∷ []) in
      let e =
        Enough-hand_on l.next l.buffers l.new_buffer2 (length (keep_two to_write)) s.next
          s.new_buffer2 (omega (arith, k.1, d.1, n)) in
      let first : (l.new_buffer1.cur == 0) ≡ true = ground (arith, s.new_buffer1) in
      let second : (l.new_buffer2.cur == 0) ≡ true = ground (arith, s.new_buffer2) in
      let r =
        recycle-Empty (keep_two to_write) (hand_on l.next l.new_buffer2).1 z k.0
          (omega (arith, k.1)) e.0 in
      let file = l.file ++ written to_write in
      rw (first, second)
        (Returns-bind (λ t. Empty size t.0 × Empty size t.1) _
          (recycle (keep_two to_write) (hand_on l.next l.new_buffer2).1) _ r
          (λ spares t. (
            record {
              current = (s.new_buffer1.0, omega (arith, s.new_buffer1.1));
              next = e.1;
              buffers = tt;
              new_buffer1 = t.0;
              new_buffer2 = t.1;
            },
            ap (λ m. file ++ take m l.new_buffer1.store) s.new_buffer1.1 ∙ append-nil file,
            refl,
            refl,
          )))

  -- With fewer than 25 full buffers a turn succeeds, and writes to the file all that was logged and
  -- not yet written, in order; nothing is left in the buffers.
  pub round_writes :
      (l : AsyncLogger)
      → 0 < size
      → length l.buffers < 25
      → IsSound size l
      → Returns (round l) (λ l'.
        IsSound size l'
        × (l'.file ≡ stream size l)
        × (stream size l' ≡ stream size l)
        × (l'.buffers ≡ []))
  unfolding drop_excess
  round_writes l z h s =
      let all = l.buffers ++ (l.current ∷ []) in
      let few : drop_excess all ≡ all = ground (arith, length-append l.buffers (l.current ∷ [])) in
      let same =
        ap (λ x. l.file ++ written x) few
        ∙ ap (λ x. l.file ++ x) (written-append size l.buffers l.current) in
      Returns-map _ _ (round l) (round-Writes l z s)
        (λ l' p. (p.0, p.2 ∙ same, p.1 ∙ (p.2 ∙ same), p.3))

  -- With 25 full buffers or more a turn succeeds as well, writes the first two of them, and drops
  -- the rest of what was logged.
  pub round_drops :
      (l : AsyncLogger)
      → 0 < size
      → 25 ≤ length l.buffers
      → IsSound size l
      → Returns (round l) (λ l'.
        IsSound size l'
        × (l'.file ≡ l.file ++ written (take 2 l.buffers))
        × (stream size l' ≡ l'.file))
  unfolding drop_excess
  round_drops l z h s =
      let all = l.buffers ++ (l.current ∷ []) in
      let many : drop_excess all ≡ take 2 all =
        ground (arith, length-append l.buffers (l.current ∷ [])) in
      let two : take 2 all ≡ take 2 l.buffers =
        take-append_le 2 l.buffers (l.current ∷ []) (omega arith) in
      Returns-map _ _ (round l) (round-Writes l z s)
        (λ l' p. (p.0, p.2 ∙ ap (λ x. l.file ++ written x) (many ∙ two), p.1))
