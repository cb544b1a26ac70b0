-- ===== src/Logger/Keeping.antt =====
-- Where the threads in `output` of base/Logger.cpp may stand, and the lemmas on a thread that moves.
use cannet.Common.{
  ℕ, ◌≤◌, ◌<◌, ◌≡◌, refl, inl, inr, Bool, true, false, some, List, ◌++◌, none, arith, ◌==◌, ==_iff,
  Bool-cases, length, set_at, Returns,
}
use cannet.FixedBuffer.Laws.{int_max}
use cannet.AsyncLogger.{AsyncLogger, append}
use cannet.AsyncLogger.Appends.{IsSound, stream, append_logs}
use cannet.Logger.Output.{
  Control, fresh, running, over, Writer, outside, calling, initialising, appending, Output,
  append_line,
}

-- Where a thread may stand.
abbrev pub Fits : Control → Writer → Type 0
Fits fresh (initialising line) = ⊥
Fits fresh (appending line) = ⊥
Fits running (appending line) = ⊥
Fits over (initialising line) = ⊥
Fits _ _ = Unit

abbrev pub is_initialising : Writer → Bool
is_initialising (initialising line) = true
is_initialising _ = false

pub all-set_at :
    (P : Writer → Type 0) (i : ℕ) (w : Writer) (f : ℕ → Writer)
    → P w
    → ((j : ℕ) → P (f j))
    → (j : ℕ) → P (set_at i w f j)
all-set_at P i w f p all j = elim (Bool-cases (j == i)) [
  | inl same ↦ rw same p
  | inr other ↦ rw other (all j)
]

pub Fits-begin : (w : Writer) → Fits fresh w → Fits running w
Fits-begin outside f = tt
Fits-begin (calling line) f = tt
Fits-begin (initialising line) f = tt
Fits-begin (appending line) f = f

pub Fits-finish : (w : Writer) → Fits running w → is_initialising w ≡ false → Fits over w
Fits-finish outside f h = tt
Fits-finish (calling line) f h = tt
Fits-finish (initialising line) f h = cc h
Fits-finish (appending line) f h = tt

pub quiet_fresh : (w : Writer) → Fits fresh w → is_initialising w ≡ false
quiet_fresh outside f = refl
quiet_fresh (calling line) f = refl
quiet_fresh (initialising line) f = absurd f
quiet_fresh (appending line) f = refl

quiet_over : (w : Writer) → Fits over w → is_initialising w ≡ false
quiet_over outside f = refl
quiet_over (calling line) f = refl
quiet_over (initialising line) f = absurd f
quiet_over (appending line) f = refl

pub Fits-calling : (c : Control) (line : List ℕ) → Fits c (calling line)
Fits-calling fresh line = tt
Fits-calling running line = tt
Fits-calling over line = tt

pub Fits-outside : (c : Control) → Fits c outside
Fits-outside fresh = tt
Fits-outside running = tt
Fits-outside over = tt

pub running_by : (c : Control) (line : List ℕ) → Fits c (initialising line) → c ≡ running
running_by fresh line f = absurd f
running_by running line f = refl
running_by over line f = absurd f

pub over_by : (c : Control) (line : List ℕ) → Fits c (appending line) → c ≡ over
over_by fresh line f = absurd f
over_by running line f = absurd f
over_by over line f = refl

module _ (size : ℕ) (new_logger : AsyncLogger) where
  abbrev pub Short : Writer → Type 0
  Short outside = Unit
  Short (calling line) = length line < size
  Short (initialising line) = length line < size
  Short (appending line) = length line < size

  -- The pointer is to the one logger that was made, which is sound.
  pub record Made (o : Output) : Type 0 where
    pub logger : AsyncLogger
    pub found : o.logger ≡ some logger
    pub sound : IsSound size logger
    pub once : o.made ≡ 1

  abbrev pub Agrees : Control → Output → Type 0
  Agrees over o = Made o
  Agrees _ o = (o.made ≡ 0) × (o.logger ≡ none)

  pub record Inv (o : Output) : Type 0 where
    pub agrees : Agrees o.control o
    pub fits : (i : ℕ) → Fits o.control (o.writer i)
    pub short : (i : ℕ) → Short (o.writer i)
    pub alone :
        (i j : ℕ)
        → is_initialising (o.writer i) ≡ true
        → is_initialising (o.writer j) ≡ true
        → i ≡ j

  pub alone_off :
      (i : ℕ) (w : Writer) (f : ℕ → Writer)
      → is_initialising w ≡ false
      → ((j k : ℕ) → is_initialising (f j) ≡ true → is_initialising (f k) ≡ true → j ≡ k)
      → (j k : ℕ) → is_initialising (set_at i w f j) ≡ true
      → is_initialising (set_at i w f k) ≡ true
      → j ≡ k
  alone_off i w f off h j k a b = elim (Bool-cases (j == i)) [
    | inl same ↦ absurd (let no : ⊥ = ground (arith, same, a, off) in no)
    | inr other ↦ elim (Bool-cases (k == i)) [
      | inl same ↦ absurd (let no : ⊥ = ground (arith, same, b, off) in no)
      | inr other' ↦ h j k (ground (arith, other, a)) (ground (arith, other', b))
    ]
  ]

  pub alone_on :
      (i : ℕ) (w : Writer) (f : ℕ → Writer)
      → ((j : ℕ) → is_initialising (f j) ≡ false)
      → (j k : ℕ) → is_initialising (set_at i w f j) ≡ true
      → is_initialising (set_at i w f k) ≡ true
      → j ≡ k
  alone_on i w f quiet j k a b = ground (arith, quiet j, quiet k, a, b, ==_iff j i, ==_iff k i)

  -- A thread moves.
  pub Agrees-moved :
      (c : Control) (o : Output) (w : ℕ → Writer) → Agrees c o → Agrees c (record o { writer = w })
  Agrees-moved fresh o w a = a
  Agrees-moved running o w a = a
  Agrees-moved over o w a = record {
    logger = a.logger;
    found = a.found;
    sound = a.sound;
    once = a.once;
  }

  -- A line is behind what the one logger held.
  abbrev pub Logs : List ℕ → Output → Output → Type 0
  Logs line o o' =
      (made : Made o) × (made' : Made o') × (stream size made'.logger
        ≡ stream size made.logger ++ line)

  -- The append of a thread that has a short line.
  pub append_line-Logs :
      (room line : List ℕ) (o : Output)
      → size ≤ int_max
      → length room ≡ size
      → length line < size
      → o.deleted ≡ false
      → Made o
      → Returns
          (append_line room line o)
          (λ o'. Logs line o o' × (o'.control ≡ o.control) × (o'.writer ≡ o.writer))
  unfolding append_line
  append_line-Logs room line o m r h there d =
      let (sound, longer) = append_logs size room line d.logger m r h d.sound in
      rw (d.found, there)
        (
          (
            record { logger = d.logger; found = refl; sound = d.sound; once = d.once },
            record {
              logger = append room line d.logger;
              found = refl;
              sound = sound;
              once = d.once;
            },
            longer,
          ),
          refl,
          refl,
        )
