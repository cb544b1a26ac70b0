-- ===== src/Logger/Output.antt =====
-- `output` of base/Logger.cpp: any number of threads that log, the first of which makes the asynchronous
-- logger. pthread_once(3) runs once_init in one caller, and the others go on when that is through.
use cannet.Common.{
  ℕ, ◌+◌, ◌<◌, ◌≡◌, Bool, if◌then◌else◌, true, false, Option, none, some, List, length, set_at,
}
use cannet.AsyncLogger.{AsyncLogger, append, round}

-- onceControl
pub data Control : Type 0 where
  fresh running over : Control

-- A thread in `output` with its line: before pthread_once, in once_init, and past pthread_once.
pub data Writer : Type 0 where
  outside : Writer
  calling initialising appending : List ℕ → Writer

-- `logger` is asyncLogger_, `made` counts the loggers; `deleted` says that its object is deleted.
pub record Output : Type 0 where
  pub control : Control
  pub logger : Option AsyncLogger
  pub made : ℕ
  pub writer : ℕ → Writer
  pub deleted : Bool

unfoldable pub create : Output
create = record { control = fresh; logger = none; made = 0; writer = λ i. outside; deleted = false }

-- `start` of the logger is part of it, and returns.
unfoldable pub once_init : AsyncLogger → Output → Output
once_init l o = record o { logger = some l; made = o.made + 1 }

-- asyncLogger_->append, which follows the pointer: none where it is null or its object is deleted; `room`
-- is the array that `append` may need.
unfoldable pub append_line : List ℕ → List ℕ → Output → Option Output
unfolding append
append_line room line o = elim o.logger [
  | none ↦ none
  | some l ↦ if o.deleted then none else some (record o { logger = some (append room line l) })
]

-- log_exit deletes the logger and leaves the pointer.
unfoldable pub log_exit : Output → Output
log_exit o = elim o.logger [ none ↦ o | some l ↦ record o { deleted = true } ]

module _ (size : ℕ) (new_logger : AsyncLogger) where
  -- The threads in `output`, whose lines are shorter than a buffer of the logger; a turn of the logger's
  -- own thread, as long as the object is there; and log_exit, at any time.
  pub data Step (o : Output) : Output → Type 0 where
    calls :
        (i : ℕ) (line : List ℕ)
        → length line < size
        → o.writer i ≡ outside
        → Step o (record o { writer = set_at i (calling line) o.writer })
    begins :
        (i : ℕ) (line : List ℕ)
        → o.writer i ≡ calling line
        → o.control ≡ fresh
        → Step o (record o { control = running; writer = set_at i (initialising line) o.writer })
    finishes :
        (i : ℕ) (line : List ℕ)
        → o.writer i ≡ initialising line
        → Step o (record (once_init new_logger o) {
          control = over;
          writer = set_at i (appending line) o.writer;
        })
    passes :
        (i : ℕ) (line : List ℕ)
        → o.writer i ≡ calling line
        → o.control ≡ over
        → Step o (record o { writer = set_at i (appending line) o.writer })
    appends :
        (i : ℕ) (room line : List ℕ) (o' : Output)
        → o.writer i ≡ appending line
        → length room ≡ size
        → append_line room line o ≡ some o'
        → Step o (record o' { writer = set_at i outside o.writer })
    turns :
        (l l' : AsyncLogger)
        → o.logger ≡ some l
        → o.deleted ≡ false
        → round l ≡ some l'
        → Step o (record o { logger = some l' })
    exits : Step o (log_exit o)

  pub data Reach : Output → Type 0 where
    here : Reach create
    next : {o o' : Output} → Reach o → Step o o' → Reach o'
