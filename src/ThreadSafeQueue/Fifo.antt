-- ===== src/ThreadSafeQueue/Fifo.antt =====
-- ThreadSafeQueue is a first-in first-out queue.
use cannet.Common.{
  ℕ, ◌≤◌, ◌<◌, ◌≡◌, refl, sym, ap, subst, ◌∙◌, true, false, Option, none, some, List, [], ◌∷◌, ◌++◌,
  append-nil, append_assoc, Bool, Returns, Returns-bind, Returns-some, ◌>>=◌, arith,
}
use cannet.ThreadSafeQueue.{
  Node, ThreadSafeQueue, empty_node, set_node, push, push_all, is_at, is_empty, pop_head, try_pop,
  try_pop_into, notify_all,
}

-- The calls: a push, and a pop during which others push.
pub data Op (A : Type 0) : Type 0 where
  pushes : A → Op A
  pops : List A → Op A

module _ {A : Type 0} where
  -- The nodes from one address to another hold the elements in order.
  abbrev pub Chain : (ℕ → Node A) → ℕ → ℕ → List A → Type 0
  Chain heap a t [] = a ≡ t
  Chain heap a t (x ∷ xs) =
      (b : ℕ) × ((heap a).val ≡ some x) × ((heap a).next ≡ some b) × (a < b) × Chain heap b t xs

  -- The queue holds the elements, oldest first.
  abbrev pub Holds : ThreadSafeQueue A → List A → Type 0
  Holds q xs = (a : ℕ) × (q.head ≡ some a) × Chain q.heap a q.tail xs × (q.tail < q.free)

  Chain-le : (heap : ℕ → Node A) (a t : ℕ) (xs : List A) → Chain heap a t xs → a ≤ t
  Chain-le heap a t [] h = omega (arith, h)
  Chain-le heap a t (x ∷ xs) (b, v, n, l, rest) = omega (arith, Chain-le heap b t xs rest)

  pub Holds-is_empty : (q : ThreadSafeQueue A) → Holds q [] → is_empty q ≡ true
  unfolding is_empty is_at
  Holds-is_empty q (a, e, h, k) = ap (λ p. is_at p q.tail) e ∙ ground (arith, h)

  pub Holds-is_empty_cons :
      (q : ThreadSafeQueue A) (x : A) (xs : List A) → Holds q (x ∷ xs) → is_empty q ≡ false
  unfolding is_empty is_at
  Holds-is_empty_cons q x xs (a, e, (b, v, n, l, rest), k) =
      let ahead = Chain-le q.heap b q.tail xs rest in
      ap (λ p. is_at p q.tail) e ∙ ground (arith, ahead)

  -- The heap that `push` leaves.
  abbrev pushed : A → ℕ → ℕ → (ℕ → Node A) → ℕ → Node A
  pushed x t free heap =
      set_node t (record { val = some x; next = some free }) (set_node free empty_node heap)

  pushed-older :
      (x : A) (t free a : ℕ) (heap : ℕ → Node A)
      → a < t
      → t < free
      → pushed x t free heap a ≡ heap a
  pushed-older x t free a heap h k = ground arith

  pushed-tail :
      (x : A) (t free : ℕ) (heap : ℕ → Node A)
      → pushed x t free heap t ≡ record { val = some x; next = some free }
  pushed-tail x t free heap = ground arith

  Chain-pushed :
      (heap : ℕ → Node A) (x : A) (a t free : ℕ) (xs : List A)
      → t < free
      → Chain heap a t xs
      → Chain (pushed x t free heap) a free (xs ++ (x ∷ []))
  Chain-pushed heap x a t free [] k h =
      let e = ap (pushed x t free heap) h ∙ pushed-tail x t free heap in
      (free, ap (λ n. n.val) e, ap (λ n. n.next) e, omega (arith, h), refl)
  Chain-pushed heap x a t free (y ∷ ys) k (b, v, n, l, rest) =
      let e = pushed-older x t free a heap (omega (arith, Chain-le heap b t ys rest)) k in
      (b, ap (λ m. m.val) e ∙ v, ap (λ m. m.next) e ∙ n, l, Chain-pushed heap x b t free ys k rest)

  pub push-Holds :
      (x : A) (q : ThreadSafeQueue A) (xs : List A) → Holds q xs → Holds (push x q) (xs ++ (x ∷ []))
  unfolding push
  push-Holds x q xs (a, e, chain, k) =
      (a, e, Chain-pushed q.heap x a q.tail q.free xs k chain, omega arith)

  push_all-Holds :
      (ys : List A) (q : ThreadSafeQueue A) (xs : List A)
      → Holds q xs
      → Holds (push_all ys q) (xs ++ ys)
  unfolding push_all
  push_all-Holds [] q xs h = subst (Holds q) (sym (append-nil xs)) h
  push_all-Holds (y ∷ ys) q xs h =
      subst (Holds (push_all ys (push y q))) (append_assoc xs (y ∷ []) ys)
        (push_all-Holds ys (push y q) (xs ++ (y ∷ [])) (push-Holds y q xs h))

  -- A first-in first-out queue.
  abbrev pub dequeue : List A → Option A × List A
  dequeue [] = (none, [])
  dequeue (x ∷ xs) = (some x, xs)

  -- A pop with its answer, and the queue that it leaves.
  abbrev pub Pops : Option A → List A → Option A × ThreadSafeQueue A → Type 0
  Pops answer rest r = (r.0 ≡ answer) × Holds r.1 rest

  pub pop_head-Pops :
      (q : ThreadSafeQueue A) (x : A) (xs : List A)
      → Holds q (x ∷ xs)
      → Returns (pop_head q) (Pops (some x) xs)
  unfolding pop_head
  pop_head-Pops q x xs (a, e, (b, v, n, l, rest), k) = rw e (v, (b, n, rest, k))

  -- The queue as it was when the tail was read answers; what was pushed meanwhile is behind it.
  try_pop-Pops :
      (ys : List A) (q : ThreadSafeQueue A) (xs : List A)
      → Holds q xs
      → Returns (try_pop ys q) (Pops (dequeue xs).0 ((dequeue xs).1 ++ ys))
  unfolding try_pop is_at
  try_pop-Pops ys q [] (a, e, h, k) =
      let at : is_at q.head q.tail ≡ true = ap (λ p. is_at p q.tail) e ∙ ground (arith, h) in
      rw at (refl, push_all-Holds ys q [] (a, e, h, k))
  try_pop-Pops ys q (x ∷ xs) (a, e, (b, v, n, l, rest), k) =
      let ahead = Chain-le q.heap b q.tail xs rest in
      let at : is_at q.head q.tail ≡ false = ap (λ p. is_at p q.tail) e ∙ ground (arith, ahead) in
      rw at (
        pop_head-Pops (push_all ys q) x (xs ++ ys)
          (push_all-Holds ys q (x ∷ xs) (a, e, (b, v, n, l, rest), k)))

  -- Both pops answer alike: the value that is moved out is there.
  try_pop_into-try_pop :
      (ys : List A) (q : ThreadSafeQueue A) (xs : List A)
      → Holds q xs
      → try_pop_into ys q ≡ try_pop ys q
  unfolding try_pop_into try_pop is_at
  try_pop_into-try_pop ys q [] (a, e, h, k) =
      let at : is_at q.head q.tail ≡ true = ap (λ p. is_at p q.tail) e ∙ ground (arith, h) in
      rw at refl
  try_pop_into-try_pop ys q (x ∷ xs) (a, e, (b, v, n, l, rest), k) =
      let ahead = Chain-le q.heap b q.tail xs rest in
      let at : is_at q.head q.tail ≡ false = ap (λ p. is_at p q.tail) e ∙ ground (arith, ahead) in
      let (r, popped, (value, left)) =
        Returns-some (Pops (some x) (xs ++ ys)) (pop_head (push_all ys q)) (
          pop_head-Pops (push_all ys q) x (xs ++ ys)
            (push_all-Holds ys q (x ∷ xs) (a, e, (b, v, n, l, rest), k))) in
      rw (at, popped, value) (ap (λ o. some (o, r.1)) (sym value))

  -- However the lock stands, notify_all does not return.
  notify_all-none : (head_locked : Bool) (q : ThreadSafeQueue A) → notify_all head_locked q ≡ none
  unfolding notify_all
  notify_all-none true q = refl
  notify_all-none false q = refl

  abbrev pub run : List (Op A) → ThreadSafeQueue A → Option (List (Option A) × ThreadSafeQueue A)
  run [] q = some ([], q)
  run (pushes x ∷ rest) q = run rest (push x q)
  run (pops meanwhile ∷ rest) q = do
    popped ← try_pop meanwhile q
    more ← run rest popped.1
    some (popped.0 ∷ more.0, more.1)

  abbrev pub fifo : List (Op A) → List A → List (Option A) × List A
  fifo [] xs = ([], xs)
  fifo (pushes x ∷ rest) xs = fifo rest (xs ++ (x ∷ []))
  fifo (pops meanwhile ∷ rest) xs =
      let more = fifo rest ((dequeue xs).1 ++ meanwhile) in ((dequeue xs).0 ∷ more.0, more.1)

  -- Whatever is pushed and popped, pushes between the two steps of a pop included, the linked list
  -- answers as a first-in first-out queue does, and no call goes through a null pointer.
  pub run_refines_fifo :
      (ops : List (Op A)) (q : ThreadSafeQueue A) (xs : List A)
      → Holds q xs
      → Returns (run ops q) (λ r. (r.0 ≡ (fifo ops xs).0) × Holds r.1 (fifo ops xs).1)
  run_refines_fifo [] q xs h = (refl, h)
  run_refines_fifo (pushes x ∷ rest) q xs h =
      run_refines_fifo rest (push x q) (xs ++ (x ∷ [])) (push-Holds x q xs h)
  run_refines_fifo (pops meanwhile ∷ rest) q xs h =
      Returns-bind (Pops (dequeue xs).0 ((dequeue xs).1 ++ meanwhile)) _ (try_pop meanwhile q) _
        (try_pop-Pops meanwhile q xs h)
        (λ popped p.
          Returns-bind _ _ (run rest popped.1) _
            (run_refines_fifo rest popped.1 ((dequeue xs).1 ++ meanwhile) p.1)
            (λ more r.
              (ap (λ a. a ∷ more.0) p.0 ∙ ap (λ others. (dequeue xs).0 ∷ others) r.0, r.1)))
