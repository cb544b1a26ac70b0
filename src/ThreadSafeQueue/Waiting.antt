-- ===== src/ThreadSafeQueue/Waiting.antt =====
-- waitAndPop of base/ThreadSafeQueue.h against push: the predicate of the wait reads the tail under
-- the tail's lock, while `push` changes the tail and notifies without the head's lock, under which the
-- thread goes to sleep.
use cannet.Common.{◌⊎◌, inl, inr, ℕ, suc, ◌+◌, ◌≡◌, refl, true, false, Option, some, [], ◌∷◌, arith}
use cannet.ThreadSafeQueue.{ThreadSafeQueue, push, is_empty, pop_head}
use cannet.ThreadSafeQueue.Fifo.{Holds, Holds-is_empty, push-Holds}

-- Where the thread stands: to test the predicate, past a test that found the queue empty, asleep on
-- the condition, or through with the value popped.
pub data Phase : Type 0 where
  testing going_to_sleep asleep : Phase
  popped : Option ℕ → Phase

-- `to_notify` counts the pushes whose notify_one is still to come.
pub record Waiting : Type 0 where
  pub queue : ThreadSafeQueue ℕ
  pub thread : Phase
  pub to_notify : ℕ

-- notify_one, for the one thread.
unfoldable pub notify : Phase → Phase
notify asleep = testing
notify p = p

-- The steps of `wait_for_data` and waitPopHead, and those of push.
pub data Step (s : Waiting) : Waiting → Type 0 where
  finds_empty :
      s.thread ≡ testing → is_empty s.queue ≡ true → Step s (record s { thread = going_to_sleep })
  sleeps : s.thread ≡ going_to_sleep → Step s (record s { thread = asleep })
  -- A spurious wakeup of the condition variable.
  wakes : s.thread ≡ asleep → Step s (record s { thread = testing })
  pops :
      (answer : Option ℕ) (q : ThreadSafeQueue ℕ)
      → s.thread ≡ testing
      → is_empty s.queue ≡ false
      → pop_head s.queue ≡ some (answer, q)
      → Step s (record s { queue = q; thread = popped answer })
  pushes : (x : ℕ) → Step s (record s { queue = push x s.queue; to_notify = s.to_notify + 1 })
  notifies :
      (n : ℕ) → s.to_notify ≡ suc n → Step s (record s { thread = notify s.thread; to_notify = n })

pub data Reach (s : Waiting) : Waiting → Type 0 where
  here : Reach s s
  next : {t u : Waiting} → Reach s t → Step t u → Reach s u

-- A thread that is about to wait, and one that sleeps with no notification to come.
abbrev pub about_to_wait : ThreadSafeQueue ℕ → Waiting
about_to_wait q = record { queue = q; thread = testing; to_notify = 0 }

abbrev pub sleeping : ThreadSafeQueue ℕ → Waiting
sleeping q = record { queue = q; thread = asleep; to_notify = 0 }

-- One state follows another by a push.
abbrev pub ByPush : Waiting → Waiting → Type 0
ByPush s t = (x : ℕ) × (t ≡ record s { queue = push x s.queue; to_notify = s.to_notify + 1 })

-- One state follows another by a spurious wakeup.
abbrev pub BySpurious : Waiting → Waiting → Type 0
BySpurious s t = t ≡ record s { thread = testing }

asleep-Step :
    (q : ThreadSafeQueue ℕ) (t : Waiting)
    → Step (sleeping q) t
    → ByPush (sleeping q) t ⊎ BySpurious (sleeping q) t
asleep-Step q _ (finds_empty e h) = absurd (let no : ⊥ = cc in no)
asleep-Step q _ (sleeps e) = absurd (let no : ⊥ = cc in no)
asleep-Step q _ (pops answer q' e h p) = absurd (let no : ⊥ = cc in no)
asleep-Step q _ (pushes x) = inl (x, refl)
asleep-Step q _ (wakes e) = inr refl
asleep-Step q _ (notifies n e) = absurd (omega (arith, e))

-- A push that comes between the test and the sleep is lost: from an empty queue the thread can come
-- to sleep with the element in the queue and no notification to come, and nothing goes on from there
-- but another push or a spurious wakeup of the condition variable.
pub lost_wakeup :
    (q : ThreadSafeQueue ℕ) (x : ℕ)
    → Holds q []
    → Reach (about_to_wait q) (sleeping (push x q))
      × Holds (push x q) (x ∷ [])
      × ((t : Waiting)
          → Step (sleeping (push x q)) t
          → ByPush (sleeping (push x q)) t ⊎ BySpurious (sleeping (push x q)) t)
unfolding notify
lost_wakeup q x h = (
  next
      (next (next (next here (finds_empty refl (Holds-is_empty q h))) (pushes x)) (notifies 0 refl))
      (sleeps refl),
  push-Holds x q [] h,
  asleep-Step (push x q),
)
