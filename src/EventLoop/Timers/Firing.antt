-- ===== src/EventLoop/Timers/Firing.antt =====
-- When the timers of an EventLoop fire.
use cannet.Common.{ℕ, ◌+◌, ◌≡◌, Bool, leb, if◌then◌else◌, not, ◌&&◌}
use cannet.TimerManager.{TimerManager, handle_read, make_timer}
use cannet.TimerManager.Order.{count}
use cannet.TimerManager.Firing.{quiet}

-- What a timer that was just added is.
record Added (when interval : ℕ) (m m' : TimerManager) : Type 0 where
  once : count m.timer_num m'.queue ≡ 1
  timer : m'.timer m.timer_num ≡ make_timer when interval
  fired : m'.fired ≡ m.fired

-- What a timer does in the next handleRead, with callbacks that leave the timers alone.
abbrev pub Fires : ℕ → Bool → ℕ → TimerManager → ℕ × TimerManager → Type 0
Fires when repeat later m (i, m') =
    let m'' = handle_read quiet later m' in
    (count i m''.fired ≡ count i m.fired + (if leb when later then 1 else 0))
    × (count i m''.queue ≡ (if leb when later && not repeat then 0 else 1))
