-- ===== src/AsyncLogger/Tests.antt =====
-- The asynchronous logger on buffers of four bytes.
use cannet.Common.{ℕ, ◌≡◌, refl, List, [], ◌∷◌, replicate, Returns, arith}
use cannet.AsyncLogger.{create, Line, serve}
use cannet.AsyncLogger.Bursts.{serve-Wrote, create-IsRested}

abbrev zeros : List ℕ
zeros = replicate 4 0

-- Two turns with a line each that fills the buffer, and a line that comes too late.
abbrev turns : List (List Line)
turns =
    (record { fresh = zeros; text = 1 ∷ 2 ∷ 3 ∷ [] } ∷ [])
    ∷ (record { fresh = zeros; text = 4 ∷ 5 ∷ [] } ∷ [])
    ∷ []

abbrev late : List Line
late = record { fresh = zeros; text = 6 ∷ [] } ∷ []

serve-Wrote_example :
    Returns
      (serve turns late (create zeros zeros zeros zeros))
      (λ l. l.file ≡ 1 ∷ 2 ∷ 3 ∷ 4 ∷ 5 ∷ [])
unfolding create
serve-Wrote_example =
    serve-Wrote 4 turns late (create zeros zeros zeros zeros) (omega arith) (omega arith)
      (omega arith) (create-IsRested 4 zeros zeros zeros zeros refl refl refl refl (omega arith))
