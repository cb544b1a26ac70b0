-- ===== src/AsyncLogger.antt =====
-- base/AsyncLogger.h and base/AsyncLogger.cpp: the threads that log fill buffers, and the thread of
-- the logger writes them. Each critical section is one step; `round` is one turn of threadFun, whose
-- work outside its critical section touches nothing that `append` does.
pub mod Appends
pub mod Growth
pub mod Rounds
pub mod Service
pub mod Bursts
mod Tests
use cannet.Common.{
  ℕ, ◌+◌, ◌-◌, Bool, true, false, Option, none, some, List, [], ◌∷◌, ◌++◌, if◌then◌else◌, ◌>>=◌,
  ◌>>◌, guard, ltb, ◌==◌, length, take, to_int, gtb_ℤ,
}
use cannet.FixedBuffer.{FixedBuffer, avail, contents}
use cannet.FixedBuffer

-- `new_buffer1` and `new_buffer2` are the locals of threadFun at the top of its loop; `file` is what
-- LogFile::append was given.
pub record AsyncLogger : Type 0 where
  pub current : FixedBuffer
  pub next : Option FixedBuffer
  pub buffers : List FixedBuffer
  pub new_buffer1 : FixedBuffer
  pub new_buffer2 : FixedBuffer
  pub file : List ℕ

-- `fresh` is the array of the buffer that `new` makes where there is no next one.
unfoldable pub next_buffer : Option FixedBuffer → List ℕ → FixedBuffer
unfolding FixedBuffer.create
next_buffer (some b) fresh = b
next_buffer none fresh = FixedBuffer.create fresh

unfoldable pub append : List ℕ → List ℕ → AsyncLogger → AsyncLogger
unfolding avail FixedBuffer.append next_buffer
append fresh logline l =
    if gtb_ℤ (avail l.current) (to_int (length logline))
    then record l { current = FixedBuffer.append logline l.current }
    else record l {
      buffers = l.buffers ++ (l.current ∷ []);
      current = FixedBuffer.append logline (next_buffer l.next fresh);
      next = none;
    }

-- What output.append is given of the buffers.
unfoldable pub written : List FixedBuffer → List ℕ
written [] = []
written (b ∷ rest) = contents b ++ written rest

unfoldable pub pop_back : List FixedBuffer → Option (FixedBuffer × List FixedBuffer)
pop_back [] = none
pop_back (b ∷ []) = some (b, [])
pop_back (b ∷ c ∷ rest) = do more ← pop_back (c ∷ rest); some (more.0, b ∷ more.1)

-- The buffers of the next turn: newBuffer1 was handed on, newBuffer2 is left or was handed on too.
unfoldable pub recycle : List FixedBuffer → Option FixedBuffer → Option (FixedBuffer × FixedBuffer)
unfolding pop_back FixedBuffer.reset
recycle pool (some new_buffer2) = do
  last ← pop_back pool
  some (FixedBuffer.reset last.0, new_buffer2)
recycle pool none = do
  last ← pop_back pool
  second ← pop_back last.1
  some (FixedBuffer.reset last.0, FixedBuffer.reset second.0)

-- nextBuffer_ and newBuffer2 after the critical section.
unfoldable pub hand_on : Option FixedBuffer → FixedBuffer → Option FixedBuffer × Option FixedBuffer
hand_on none new_buffer2 = (some new_buffer2, none)
hand_on (some b) new_buffer2 = (some b, some new_buffer2)

-- More than 25 buffers are too many: two of them are kept.
unfoldable pub drop_excess : List FixedBuffer → List FixedBuffer
drop_excess to_write = if ltb 25 (length to_write) then take 2 to_write else to_write

-- No more than two are recycled.
unfoldable pub keep_two : List FixedBuffer → List FixedBuffer
keep_two to_write = if ltb 2 (length to_write) then take 2 to_write else to_write

unfoldable pub round : AsyncLogger → Option AsyncLogger
unfolding written recycle hand_on drop_excess keep_two
round l = do
  guard (l.new_buffer1.cur == 0)
  guard (l.new_buffer2.cur == 0)
  let to_write = drop_excess (l.buffers ++ (l.current ∷ []))
  let handed = hand_on l.next l.new_buffer2
  spares ← recycle (keep_two to_write) handed.1
  some (record {
    current = l.new_buffer1;
    next = handed.0;
    buffers = [];
    new_buffer1 = spares.0;
    new_buffer2 = spares.1;
    file = l.file ++ written to_write;
  })

-- The buffers of the constructor and those that threadFun makes before its loop, over the arrays that
-- `new` leaves.
unfoldable pub create : List ℕ → List ℕ → List ℕ → List ℕ → AsyncLogger
unfolding FixedBuffer.create FixedBuffer.reset_data
create current next new_buffer1 new_buffer2 = record {
  current = FixedBuffer.reset_data (FixedBuffer.create current);
  next = some (FixedBuffer.reset_data (FixedBuffer.create next));
  buffers = [];
  new_buffer1 = FixedBuffer.reset_data (FixedBuffer.create new_buffer1);
  new_buffer2 = FixedBuffer.reset_data (FixedBuffer.create new_buffer2);
  file = [];
}

-- A line that some thread appends, with the array that `append` may have to make a buffer of.
pub record Line : Type 0 where
  pub fresh : List ℕ
  pub text : List ℕ

unfoldable pub append_all : List Line → AsyncLogger → AsyncLogger
unfolding append
append_all [] l = l
append_all (line ∷ rest) l = append_all rest (append line.fresh line.text l)

-- The loop of threadFun: a turn for each entry, with what is appended between the critical section of
-- the turn before and its own. The list ends where `stop` is noticed.
unfoldable pub thread_fun : List (List Line) → AsyncLogger → Option AsyncLogger
unfolding append_all round
thread_fun [] l = some l
thread_fun (lines ∷ turns) l = do l' ← round (append_all lines l); thread_fun turns l'

-- A logger from its start to the end of its thread; `late` is appended after the last critical section.
unfoldable pub serve : List (List Line) → List Line → AsyncLogger → Option AsyncLogger
unfolding thread_fun append_all
serve turns late l = do l' ← thread_fun turns l; some (append_all late l')
