-- ===== src/ThreadSafeQueue.antt =====
-- base/ThreadSafeQueue.h: a linked list that ends in a dummy node, with a lock for either end. Nodes
-- live at addresses that are not used again; each critical section is one step. A pop reads the tail
-- under the tail's lock and goes on under the head's alone: pushes come between the two steps.
pub mod Fifo
pub mod Waiting
mod Tests
use cannet.Common.{
  ℕ, ◌+◌, Bool, true, false, Option, none, some, List, [], ◌∷◌, if◌then◌else◌, ◌>>=◌, ◌>>◌, guard,
  ◌==◌,
}

pub record Node {ℓ} (A : Type ℓ) : Type ℓ where
  pub val : Option A
  pub next : Option ℕ

-- `heap` has the nodes, `free` is the next address; `head` is none for a null pointer.
pub record ThreadSafeQueue {ℓ} (A : Type ℓ) : Type ℓ where
  pub heap : ℕ → Node A
  pub free : ℕ
  pub head : Option ℕ
  pub tail : ℕ

-- head_.get() == the tail that was read
unfoldable pub is_at : Option ℕ → ℕ → Bool
is_at none tail = false
is_at (some head) tail = head == tail

-- std::mutex::lock, given whether the mutex is locked. It is not recursive: none is a wait for ever.
unfoldable pub lock : Bool → Option Bool
lock true = none
lock false = some true

module _ {ℓ} {A : Type ℓ} where
  unfoldable pub empty_node : Node A
  empty_node = record { val = none; next = none }

  -- The node at an address given anew.
  abbrev pub set_node : ℕ → Node A → (ℕ → Node A) → ℕ → Node A
  set_node a n heap b = if b == a then n else heap b

  unfoldable pub create : ThreadSafeQueue A
  unfolding empty_node
  create = record { heap = λ a. empty_node; free = 1; head = some 0; tail = 0 }

  unfoldable pub push : A → ThreadSafeQueue A → ThreadSafeQueue A
  unfolding empty_node
  push x q =
      let heap' = set_node q.free empty_node q.heap in
      record q {
        heap = set_node q.tail (record { val = some x; next = some q.free }) heap';
        free = q.free + 1;
        tail = q.free;
      }

  unfoldable pub push_all : List A → ThreadSafeQueue A → ThreadSafeQueue A
  unfolding push
  push_all [] q = q
  push_all (x ∷ rest) q = push_all rest (push x q)

  unfoldable pub pop_head : ThreadSafeQueue A → Option (Option A × ThreadSafeQueue A)
  pop_head q = do head ← q.head; some ((q.heap head).val, record q { head = (q.heap head).next })

  -- tryPop, with what other threads push after the tail is read. The result is none where the code
  -- would go through a null pointer; the value popped is none where the queue was found empty.
  unfoldable pub try_pop : List A → ThreadSafeQueue A → Option (Option A × ThreadSafeQueue A)
  unfolding push_all is_at pop_head
  try_pop meanwhile q =
      let q' = push_all meanwhile q in
      let popped = pop_head q' in if is_at q.head q.tail then some (none, q') else popped

  unfoldable pub is_empty : ThreadSafeQueue A → Bool
  unfolding is_at
  is_empty q = is_at q.head q.tail

  -- tryPop(T &), which moves the value out before it takes the node off.
  unfoldable pub try_pop_into : List A → ThreadSafeQueue A → Option (Option A × ThreadSafeQueue A)
  unfolding push_all is_at pop_head
  try_pop_into meanwhile q =
      let q' = push_all meanwhile q in
      let popped = (do r ← pop_head q'; value ← r.0; some (some value, r.1)) in
      if is_at q.head q.tail then some (none, q') else popped

  -- notify_all: both locks of headMutex_ are taken by one thread. The result is what it leaves of the
  -- lock, and none where it waits for ever.
  unfoldable pub notify_all : Bool → ThreadSafeQueue A → Option Bool
  unfolding lock is_empty
  notify_all head_locked q = do locked ← lock head_locked; inner ← lock locked; some false
