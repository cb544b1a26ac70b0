-- ===== src/Logger/Tests.antt =====
-- base/Logger.h and base/Logger.cpp: one statement, `LOG << "n=" << 42`, and two threads that log.
use cannet.Common.{
  ◌⊎◌, none, true, false, ℕ, ◌<◌, ◌≡◌, refl, some, List, [], ◌∷◌, ◌++◌, pos, replicate, length,
  length-replicate, Returns, arith, set_at,
}
use cannet.FixedBuffer.{FixedBuffer}
use cannet.LogStream.{Item, integer, c_string, codes}
use cannet.LogStream.Shift.{AllInRange}
use cannet.LogStream.Lines.{Logged}
use cannet.AsyncLogger.{AsyncLogger}
use cannet.AsyncLogger.Appends.{IsSound, stream}
use cannet.Logger.{k_small_buffer, log}
use cannet.Logger.Output.{
  Output, over, outside, calling, initialising, appending, once_init, append_line, Reach, here,
  next, calls, begins, finishes, passes,
}
use cannet.Logger.Output
use cannet.Logger.Keeping.{Made, Logs}
use cannet.Logger.Making.{Reach-Made}
use cannet.Logger.Statements.{statement, log-Logged}

abbrev zeros : ℕ → List ℕ
zeros n = replicate n 0

length-zeros : (n : ℕ) → length (zeros n) ≡ n
length-zeros n = length-replicate n 0

abbrev items : List Item
items = c_string (some (codes "n=")) ∷ integer (pos 42) ∷ []

abbrev empty : ℕ → FixedBuffer
empty size = record { store = zeros size; cur = 0 }

abbrev logger : ℕ → AsyncLogger
logger size = record {
  current = empty size;
  next = some (empty size);
  buffers = [];
  new_buffer1 = empty size;
  new_buffer2 = empty size;
  file = [];
}

logger-IsSound : (size : ℕ) → 0 < size → IsSound size (logger size)
logger-IsSound size h = record {
  current = (length-zeros size, h);
  next = (length-zeros size, refl);
  buffers = tt;
  new_buffer1 = (length-zeros size, refl);
  new_buffer2 = (length-zeros size, refl);
}

items-AllInRange : AllInRange (statement (codes "12:00\n") (codes "test.cpp") (pos 9) items)
items-AllInRange = (
  omega arith,
  (omega arith, (omega arith, (omega arith, (omega arith, (tt, (omega arith, (tt, tt))))))),
)

log-Logged_example :
    let time = codes "12:00\n" in
    let file = codes "test.cpp" in
    let fresh = zeros k_small_buffer in
    Returns
      (log (zeros k_small_buffer) fresh time file (pos 9) items (logger k_small_buffer))
      (λ l'.
        IsSound k_small_buffer l'
        × ((s : List ℕ) × (stream k_small_buffer l'
              ≡ stream k_small_buffer (logger k_small_buffer) ++ s)
            × Logged (statement time file (pos 9) items) k_small_buffer s))
log-Logged_example =
    log-Logged k_small_buffer (zeros k_small_buffer) (zeros k_small_buffer) (codes "12:00\n")
      (codes "test.cpp") (pos 9) items (logger k_small_buffer) (omega arith) (omega arith)
      (length-zeros k_small_buffer) (length-zeros k_small_buffer) items-AllInRange
      (logger-IsSound k_small_buffer (omega arith))

-- Thread 0 makes the logger while thread 1 waits for it; then both are past pthread_once.
abbrev passed : Output
passed = record {
  control = over;
  logger = some (logger 8);
  made = 1;
  writer = set_at 1 (appending (2 ∷ [])) (
      set_at 0 (appending (1 ∷ [])) (
        set_at 1 (calling (2 ∷ []))
          (set_at 0 (initialising (1 ∷ [])) (set_at 0 (calling (1 ∷ [])) (λ i. outside)))));
  deleted = false;
}

passed-Reach : Reach 8 (logger 8) passed
unfolding Output.create once_init
passed-Reach =
    next
      (next
        (next (next (next here (calls 0 (1 ∷ []) (omega arith) refl)) (begins 0 (1 ∷ []) refl refl))
          (calls 1 (2 ∷ []) (omega arith) refl))
        (finishes 0 (1 ∷ []) refl))
      (passes 1 (2 ∷ []) refl refl)

Reach-Made_example :
    Made 8 (logger 8) passed
    × ((passed.deleted ≡ false)
          × Returns (append_line (zeros 8) (2 ∷ []) passed) (Logs 8 (logger 8) (2 ∷ []) passed)
        ⊎ ((passed.deleted ≡ true) × (append_line (zeros 8) (2 ∷ []) passed ≡ none)))
Reach-Made_example =
    Reach-Made 8 (logger 8) (omega arith) (omega arith) (logger-IsSound 8 (omega arith)) passed 1
      (zeros 8) (2 ∷ []) passed-Reach refl (length-zeros 8)
