-- ===== src/FileUtil.antt =====
-- base/FileUtil.h, base/FileUtil.cpp and WriteFile of base/File.h, base/File.cpp: files that take all
-- of a line by several calls of fwrite_unlocked(3). The calls are numbered; `capacity` says how many
-- bytes each one can take, so that it takes no more than it is offered.
pub mod Append
mod Tests
use cannet.Common.{
  ℕ, zero, suc, ◌+◌, ◌-◌, min, Bool, Option, none, some, List, [], ◌∷◌, ◌++◌, ◌==◌, if◌then◌else◌,
  ◌>>=◌, ◌>>◌, length, slice, sub_size, add_size,
}

-- `content` is what the calls took, `calls` counts them.
pub record OutFile : Type 0 where
  pub content : List ℕ
  pub calls : ℕ

-- AppendFile::write: the bytes from `start` on are offered, `len` of them.
unfoldable pub write : (ℕ → ℕ) → List ℕ → ℕ → ℕ → OutFile → ℕ × OutFile
write capacity line start len f =
    let x = min (capacity f.calls) len in
    (x, record { content = f.content ++ slice line start x; calls = f.calls + 1 })

-- The loop of AppendFile::append, with the bytes `n` already taken; none where the fuel ends.
unfoldable pub append_loop : ℕ → (ℕ → ℕ) → List ℕ → ℕ → ℕ → OutFile → Option OutFile
unfolding write
append_loop zero capacity line n remain f = none
append_loop (suc fuel) capacity line n remain f =
    let w = write capacity line n remain f in
    let n' = add_size n w.0 in
    let rest = append_loop fuel capacity line n' (sub_size (length line) n') w.1 in
    if remain == 0 then some f else if w.0 == 0 then some w.1 else rest

-- AppendFile::append. One round for each byte and one more are enough.
unfoldable pub append : (ℕ → ℕ) → List ℕ → OutFile → Option OutFile
unfolding append_loop
append capacity line f =
    let w = write capacity line 0 (length line) f in
    append_loop (length line + 1) capacity line w.0 (sub_size (length line) w.0) w.1

pub record WriteFile : Type 0 where
  pub file : OutFile
  pub write_len : ℕ

-- The do-while loop of WriteFile::append.
unfoldable pub write_file_loop : ℕ → (ℕ → ℕ) → List ℕ → ℕ → ℕ → OutFile → Option OutFile
unfolding write
write_file_loop zero capacity line n remain f = none
write_file_loop (suc fuel) capacity line n remain f =
    let w = write capacity line n remain f in
    let n' = add_size n w.0 in
    let remain' = sub_size (length line) n' in
    let rest = write_file_loop fuel capacity line n' remain' w.1 in
    if w.0 == 0 then some w.1 else if remain' == 0 then some w.1 else rest

-- WriteFile::append, which counts the whole line whatever was taken.
unfoldable pub write_file_append : (ℕ → ℕ) → List ℕ → WriteFile → Option WriteFile
unfolding write_file_loop
write_file_append capacity line f = do
  file ← write_file_loop (length line + 1) capacity line 0 (length line) f.file
  some (record { file = file; write_len = add_size f.write_len (length line) })
