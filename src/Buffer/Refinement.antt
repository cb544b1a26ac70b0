-- ===== src/Buffer/Refinement.antt =====
-- The buffer of net/Buffer.h against a queue of bytes: no sequence of calls tells them apart.
use cannet.Common.{
  ℕ, ◌+◌, ◌≤◌, ◌≡◌, refl, ◌⊎◌, inl, inr, Option, none, some, List, [], ◌∷◌, ◌++◌, arith, leb, ◌>>=◌,
  ◌>>◌, guard, Returns-some, max_size, length, take, drop, Bool-cases, take-all, drop-all,
}
use cannet.Buffer.{
  Buffer, readable_bytes, append, retrieve, retrieve_as_string, retrieve_all_as_string,
  retrieve_all,
}
use cannet.Buffer.Validity.{IsValid}
use cannet.Buffer.Contents.{
  contents, append_lem, retrieve_lem, retrieve_as_string_lem, retrieve_too_much, length-contents,
}

-- The calls that a client makes on the readable bytes.
pub data Op : Type 0 where
  appends : List ℕ → Op
  retrieves : ℕ → Op
  takes : ℕ → Op
  takes_all : Op
  clears : Op

no_string : Option Buffer → Option (List ℕ × Buffer)
no_string none = none
no_string (some b) = some ([], b)

-- The string that the call returns, empty where it returns none, and the buffer.
step : Op → Buffer → Option (List ℕ × Buffer)
unfolding no_string
step (appends src) b = no_string (append src b)
step (retrieves len) b = no_string (retrieve len b)
step (takes len) b = retrieve_as_string len b
step takes_all b = retrieve_all_as_string b
step clears b = some ([], retrieve_all b)

unfoldable pub run : List Op → Buffer → Option (List (List ℕ) × Buffer)
unfolding step
run [] b = some ([], b)
run (op ∷ ops) b = do (s, b') ← step op b; (ss, b'') ← run ops b'; some (s ∷ ss, b'')

-- The specification: a call asks for more than there is, or it has its effect at the two ends.
queue_step : Op → List ℕ → Option (List ℕ × List ℕ)
queue_step (appends src) q = some ([], q ++ src)
queue_step (retrieves len) q = do guard (leb len (length q)); some ([], drop len q)
queue_step (takes len) q = do guard (leb len (length q)); some (take len q, drop len q)
queue_step takes_all q = some (q, [])
queue_step clears q = some ([], [])

unfoldable pub queue_run : List Op → List ℕ → Option (List (List ℕ) × List ℕ)
unfolding queue_step
queue_run [] q = some ([], q)
queue_run (op ∷ ops) q = do
  (s, q') ← queue_step op q
  (ss, q'') ← queue_run ops q'
  some (s ∷ ss, q'')

abbrev added : Op → ℕ
added (appends src) = length src
added (retrieves len) = 0
added (takes len) = 0
added takes_all = 0
added clears = 0

-- How many bytes the calls append.
abbrev pub total_added : List Op → ℕ
total_added [] = 0
total_added (op ∷ ops) = added op + total_added ops

abbrev StepRefines : Op → Buffer → Type 0
StepRefines op b =
    ((step op b ≡ none) × (queue_step op (contents b) ≡ none))
    ⊎ ((s : List ℕ) × (b' : Buffer) × (step op b ≡ some (s, b'))
        × (queue_step op (contents b) ≡ some (s, contents b'))
        × IsValid b'
        × (length b'.bytes ≤ length b.bytes + added op))

appends-StepRefines :
    (src : List ℕ) (b : Buffer)
    → IsValid b
    → length b.bytes + length src ≤ max_size
    → StepRefines (appends src) b
unfolding step queue_step no_string
appends-StepRefines src b v h =
    let (b', e, p) = Returns-some _ (append src b) (append_lem src b v h) in
    inr ([], b', ground (arith, e), ground (arith, p.1), p.0, p.2)

takes-StepRefines : (len : ℕ) (b : Buffer) → IsValid b → StepRefines (takes len) b
unfolding step queue_step
takes-StepRefines len b v = elim (Bool-cases (leb len (readable_bytes b))) [
  | inl e ↦
      let (r, f, p) =
        Returns-some _ (retrieve_as_string len b) (retrieve_as_string_lem len b v (ground arith)) in
      inr (
        r.0,
        r.1,
        ground (arith, f),
        ground (arith, f, p, length-contents b v),
        p.1,
        ground (arith, p.3),
      )
  | inr e ↦ inl (ground (arith, retrieve_too_much len b), ground (arith, length-contents b v))
]

retrieves-StepRefines : (len : ℕ) (b : Buffer) → IsValid b → StepRefines (retrieves len) b
unfolding step queue_step no_string
retrieves-StepRefines len b v = elim (Bool-cases (leb len (readable_bytes b))) [
  | inl e ↦
      let (b', f, p) = Returns-some _ (retrieve len b) (retrieve_lem len b v (ground arith)) in
      inr (
        [],
        b',
        ground (arith, f),
        ground (arith, f, p, length-contents b v),
        p.0,
        ground (arith, p.2),
      )
  | inr e ↦ inl (ground (arith, retrieve_too_much len b), ground (arith, length-contents b v))
]

takes_all-StepRefines : (b : Buffer) → IsValid b → StepRefines takes_all b
unfolding step queue_step retrieve_all_as_string
takes_all-StepRefines b v =
    let n = readable_bytes b in
    let (r, f, p) =
      Returns-some _ (retrieve_as_string n b) (retrieve_as_string_lem n b v (omega arith)) in
    let size = length-contents b v in
    inr (
      r.0,
      r.1,
      f,
      ground (arith, p, size, take-all n (contents b), drop-all n (contents b)),
      p.1,
      ground (arith, p.3),
    )

clears-StepRefines : (b : Buffer) → IsValid b → StepRefines clears b
unfolding step queue_step retrieve_all
clears-StepRefines b v = inr ([], retrieve_all b, refl, refl, omega arith, omega arith)

step-StepRefines :
    (op : Op) (b : Buffer) → IsValid b → length b.bytes + added op ≤ max_size → StepRefines op b
step-StepRefines (appends src) b v h = appends-StepRefines src b v h
step-StepRefines (retrieves len) b v h = retrieves-StepRefines len b v
step-StepRefines (takes len) b v h = takes-StepRefines len b v
step-StepRefines takes_all b v h = takes_all-StepRefines b v
step-StepRefines clears b v h = clears-StepRefines b v

abbrev pub view : Option (List (List ℕ) × Buffer) → Option (List (List ℕ) × List ℕ)
view none = none
view (some r) = some (r.0, contents r.1)

view-step :
    (s : List ℕ) (m : Option (List (List ℕ) × Buffer)) (n : Option (List (List ℕ) × List ℕ))
    → view m ≡ n
    → view (m >>= λ r. some (s ∷ r.0, r.1)) ≡ (n >>= λ r. some (s ∷ r.0, r.1))
view-step s none n e = rw (← e)
view-step s (some r) n e = rw (← e)

-- Whatever the calls, the buffer answers as the queue of its bytes does, fails where the queue
-- fails, and is left holding what the queue holds, while memory lasts for what is appended.
pub run_refines :
    (ops : List Op) (b : Buffer)
    → IsValid b
    → length b.bytes + total_added ops ≤ max_size
    → view (run ops b) ≡ queue_run ops (contents b)
unfolding run queue_run
run_refines [] b v h = refl
run_refines (op ∷ ops) b v h = elim (step-StepRefines op b v (omega arith)) [
  | inl (e, f) ↦ rw (e, f)
  | inr (s, b', e, f, w, g) ↦
      rw (e, f)
        (view-step s (run ops b') (queue_run ops (contents b'))
          (run_refines ops b' w (omega arith)))
]
