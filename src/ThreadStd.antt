-- ===== src/ThreadStd.antt =====
-- ThreadStd of base/ThreadStd.h and base/ThreadStd.cpp, over a std::thread that may fail to start.
use cannet.Common.{
  ℕ, List, length, ◌==◌, Bool, true, false, not, ◌&&◌, ◌||◌, Option, some, if◌then◌else◌, ◌>>◌,
  guard,
}

-- `joinable` is that of the std::thread, `detached` says that its handle was given up.
pub record ThreadStd : Type 0 where
  pub started : Bool
  pub joinable : Bool
  pub detached : Bool

unfoldable pub create : ThreadStd
create = record { started = false; joinable = false; detached = false }

-- `throws` says that the constructor of std::thread throws.
unfoldable pub start : Bool → ThreadStd → Option ThreadStd
start throws t = do
  guard (not t.started)
  some (record t { started = true; joinable = not throws || t.joinable })

unfoldable pub join : ThreadStd → ThreadStd
join t = if t.started && t.joinable then record t { joinable = false } else t

-- The destructor.
unfoldable pub destroy : ThreadStd → ThreadStd
destroy t = if t.started && t.joinable then record t { joinable = false; detached = true } else t

-- What a thread knows of itself: its number, 0 until it is asked for, and the text of it for the log.
pub record TidCache : Type 0 where
  pub cached_tid : ℕ
  pub tid_string : List ℕ
  pub tid_string_length : ℕ

-- `get_tid` is what gettid(2) answers, and `print` is snprintf with "%5d".
unfoldable pub cache_tid : ℕ → (ℕ → List ℕ) → TidCache → TidCache
cache_tid get_tid print c =
    if c.cached_tid == 0
    then record {
      cached_tid = get_tid;
      tid_string = print get_tid;
      tid_string_length = length (print get_tid);
    }
    else c

unfoldable pub tid : ℕ → (ℕ → List ℕ) → TidCache → ℕ × TidCache
unfolding cache_tid
tid get_tid print c = let c' = cache_tid get_tid print c in (c'.cached_tid, c')
