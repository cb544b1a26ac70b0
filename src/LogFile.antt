-- ===== src/LogFile.antt =====
-- base/LogFile.h and base/LogFile.cpp: a file of log lines that is flushed after every `flush_every_n`
-- of them. The file's buffer is not bounded here: what stdio flushes earlier is not seen.
pub mod Flushing
mod Tests
use cannet.Common.{ℕ, ◌+◌, List, [], ◌∷◌, ◌++◌, leb, if◌then◌else◌}

-- `content` is what file_->append was given, `flushed` how much of it was flushed, in lines.
pub record LogFile : Type 0 where
  pub flush_every_n : ℕ
  pub count : ℕ
  pub content : List (List ℕ)
  pub flushed : List (List ℕ)

unfoldable pub create : ℕ → LogFile
create flush_every_n = record {
  flush_every_n = flush_every_n;
  count = 0;
  content = [];
  flushed = [];
}

unfoldable pub flush : LogFile → LogFile
flush f = record f { flushed = f.content }

unfoldable pub append_unlocked : List ℕ → LogFile → LogFile
unfolding flush
append_unlocked logline f =
    let f' = record f { content = f.content ++ (logline ∷ []); count = f.count + 1 } in
    if leb f'.flush_every_n f'.count then record (flush f') { count = 0 } else f'

-- The calls: a line appended, or a flush asked for.
pub data Call : Type 0 where
  appends : List ℕ → Call
  flushes : Call

unfoldable pub run : List Call → LogFile → LogFile
unfolding append_unlocked flush
run [] f = f
run (appends logline ∷ rest) f = run rest (append_unlocked logline f)
run (flushes ∷ rest) f = run rest (flush f)
