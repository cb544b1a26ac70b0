-- ===== src/CurrentThread.antt =====
-- base/CurrentThread.h, and the same in base/ThreadStd.cpp: a thread's number, asked for once. gettid(2)
-- and the text of a number are the system's and the library's.
use cannet.Common.{ℕ, ◌≡◌, ◌≢◌, Bool, List, [], ◌∷◌, ◌++◌, ◌==◌, if◌then◌else◌, arith}

-- The thread-local variables; 0 stands for a number not asked for yet.
pub record CurrentThread : Type 0 where
  pub cached_tid : ℕ
  pub tid_string : List ℕ

unfoldable pub create : CurrentThread
create = record { cached_tid = 0; tid_string = [] }

-- The number, and the text of it with a blank behind.
unfoldable pub tid : ℕ → (ℕ → List ℕ) → CurrentThread → ℕ × CurrentThread
tid gettid to_string c =
    if c.cached_tid == 0
    then (gettid, record { cached_tid = gettid; tid_string = to_string gettid ++ (32 ∷ []) })
    else (c.cached_tid, c)

unfoldable pub is_main_thread : ℕ → ℕ → (ℕ → List ℕ) → CurrentThread → Bool × CurrentThread
unfolding tid
is_main_thread getpid gettid to_string c = let (n, c') = tid gettid to_string c in (n == getpid, c')

-- The number is asked for once: what the kernel would answer later does not matter.
pub tid_cached :
    (gettid later : ℕ) (to_string : ℕ → List ℕ) (c : CurrentThread)
    → gettid ≢ 0
    → let (n, c') = tid gettid to_string c in tid later to_string c' ≡ (n, c')
unfolding tid
tid_cached gettid later to_string c h = ground arith
