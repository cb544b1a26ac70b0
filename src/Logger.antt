-- ===== src/Logger.antt =====
-- base/Logger.h and base/Logger.cpp: a log statement makes a Logger, whose line starts with the time,
-- takes the items of the statement and, in the destructor, the place in the source; then the line goes
-- to the asynchronous logger. The text of the time is the library's and an argument.
pub mod Statements
pub mod Output
pub mod Keeping
pub mod Making
mod Tests
use cannet.Common.{ℕ, Option, some, List, [], ◌∷◌, ◌++◌, ℤ, ◌>>=◌}
use cannet.FixedBuffer.{FixedBuffer, contents}
use cannet.FixedBuffer
use cannet.LogStream.{Item, integer, char, c_string, string, codes, shift, shift_all}
use cannet.AsyncLogger.{AsyncLogger}
use cannet.AsyncLogger

-- kSmallBuffer, the size of a line.
abbrev pub k_small_buffer : ℕ
k_small_buffer = 4000

pub record Logger : Type 0 where
  pub stream : FixedBuffer
  pub line : ℤ
  pub basename : List ℕ

-- formatTime
abbrev pub time_items : List ℕ → List Item
time_items time = c_string (some time) ∷ []

-- The constructor; `store` is what the array of the line holds.
unfoldable pub create : List ℕ → List ℕ → List ℕ → ℤ → Option Logger
unfolding FixedBuffer.create
create store time filename line = do
  stream ← shift_all (time_items time) (FixedBuffer.create store)
  some (record { stream = stream; line = line; basename = filename })

-- What the destructor shifts.
abbrev pub place_items : List ℕ → ℤ → List Item
place_items basename line =
    c_string (some (codes " -- ")) ∷ string basename ∷ char 58 ∷ integer line ∷ char 10 ∷ []

-- The destructor, with `output`; `fresh` is for the buffer that the asynchronous logger may need.
unfoldable pub destroy : List ℕ → Logger → AsyncLogger → Option AsyncLogger
unfolding AsyncLogger.append
destroy fresh logger l = do
  stream ← shift_all (place_items logger.basename logger.line) logger.stream
  some (AsyncLogger.append fresh (contents stream) l)

-- A whole statement, as `LOG << item << item`.
unfoldable pub log :
    List ℕ → List ℕ → List ℕ → List ℕ → ℤ → List Item → AsyncLogger → Option AsyncLogger
unfolding create destroy
log store fresh time filename line items l = do
  logger ← create store time filename line
  stream ← shift_all items logger.stream
  destroy fresh (record logger { stream = stream }) l
