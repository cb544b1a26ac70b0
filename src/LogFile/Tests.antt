-- ===== src/LogFile/Tests.antt =====
-- A log file that is flushed after every second line.
use cannet.Common.{◌≡◌, refl, List, [], ◌∷◌, arith}
use cannet.LogFile.{create, Call, appends, run}
use cannet.LogFile.Flushing.{IsBehind, lines, run-IsBehind}

abbrev calls : List Call
calls = appends (1 ∷ []) ∷ appends (2 ∷ []) ∷ appends (3 ∷ []) ∷ []

run-create :
    ((run calls (create 2)).flushed ≡ (1 ∷ []) ∷ (2 ∷ []) ∷ []) × ((run calls (create 2)).count ≡ 1)
unfolding run create
run-create = (refl, refl)

run-IsBehind_example :
    IsBehind (run calls (create 2)) × ((run calls (create 2)).content ≡ lines calls)
unfolding create
run-IsBehind_example = run-IsBehind calls (create 2) ([], refl, omega arith, omega arith)
