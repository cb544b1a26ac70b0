-- ===== src/FileUtil/Tests.antt =====
-- The append loops on a file that takes two bytes at a time, or stops.
use cannet.Common.{ℕ, ◌≡◌, refl, ◌==◌, if◌then◌else◌, List, [], ◌∷◌, Returns, add_size, arith}
use cannet.FileUtil.{OutFile, append, WriteFile, write_file_append}
use cannet.FileUtil.Append.{TookFrom, append_took, write_file_append_took}

abbrev out : OutFile
out = record { content = 9 ∷ []; calls = 0 }

abbrev line : List ℕ
line = 1 ∷ 2 ∷ 3 ∷ []

abbrev by_two : ℕ → ℕ
by_two k = 2

abbrev once : ℕ → ℕ
once k = if k == 0 then 2 else 0

append-line :
    Returns (append by_two line out) (λ f. (f.content ≡ 9 ∷ 1 ∷ 2 ∷ 3 ∷ []) × (f.calls ≡ 2))
unfolding append
append-line = (refl, refl)

append_took_example : Returns (append once line out) (TookFrom once line (9 ∷ []))
append_took_example = append_took once line (omega arith) out

abbrev log_file : WriteFile
log_file = record { file = out; write_len = 1 }

write_file_append_took_example :
    Returns
      (write_file_append once line log_file)
      (λ g. TookFrom once line (9 ∷ []) g.file × (g.write_len ≡ add_size 1 3))
write_file_append_took_example =
    write_file_append_took once line (omega arith) log_file (omega arith)
