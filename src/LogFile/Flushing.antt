-- ===== src/LogFile/Flushing.antt =====
-- How far the flushed part of a LogFile stays behind.
use cannet.Common.{
  ℕ, ◌+◌, ◌≤◌, ◌<◌, ◌≡◌, refl, inl, inr, Bool-cases, leb, sym, ap, ◌∙◌, List, [], ◌∷◌, ◌++◌,
  append-nil, append_assoc, length, length-append, arith,
}
use cannet.LogFile.{LogFile, flush, append_unlocked, Call, appends, flushes, run}

-- What is flushed is all but the last lines, no more of them than were counted, and those are fewer
-- than `flush_every_n`.
abbrev pub IsBehind : LogFile → Type 0
IsBehind f =
    (waiting : List (List ℕ)) × (f.content ≡ f.flushed ++ waiting)
    × (length waiting ≤ f.count)
    × (f.count < f.flush_every_n)

abbrev pub lines : List Call → List (List ℕ)
lines [] = []
lines (appends logline ∷ rest) = logline ∷ lines rest
lines (flushes ∷ rest) = lines rest

append_unlocked-IsBehind :
    (logline : List ℕ) (f : LogFile)
    → IsBehind f
    → IsBehind (append_unlocked logline f)
      × ((append_unlocked logline f).content ≡ f.content ++ (logline ∷ []))
unfolding append_unlocked
append_unlocked-IsBehind logline f (waiting, e, h, k) =
    let next = f.content ++ (logline ∷ []) in
    elim (Bool-cases (leb f.flush_every_n (f.count + 1))) [
      | inl full ↦ rw full (([], sym (append-nil next), omega arith, omega arith), refl)
      | inr more ↦ rw more (
        (
          waiting ++ (logline ∷ []),
          ap (λ c. c ++ (logline ∷ [])) e ∙ append_assoc f.flushed waiting (logline ∷ []),
          omega (arith, length-append waiting (logline ∷ [])),
          ground arith,
        ),
        refl,
      )
    ]

-- From a state that is so, as a new file is, whatever is appended and flushed: the file holds all lines
-- in order, and fewer than `flush_every_n` of them, the last ones, still wait to be flushed.
pub run-IsBehind :
    (cs : List Call) (f : LogFile)
    → IsBehind f
    → IsBehind (run cs f) × ((run cs f).content ≡ f.content ++ lines cs)
unfolding run
run-IsBehind [] f b = (b, sym (append-nil f.content))
run-IsBehind (appends logline ∷ rest) f b =
    let a = append_unlocked-IsBehind logline f b in
    let r = run-IsBehind rest (append_unlocked logline f) a.0 in
    (
      r.0,
      r.1 ∙ (ap (λ c. c ++ lines rest) a.1 ∙ append_assoc f.content (logline ∷ []) (lines rest)),
    )
run-IsBehind (flushes ∷ rest) f (waiting, e, h, k) =
    run-IsBehind rest (flush f) ([], sym (append-nil f.content), omega arith, k)
