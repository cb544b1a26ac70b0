-- ===== src/FixedBuffer/Tests.antt =====
-- FixedBuffer of base/LogStream.h on a concrete array.
use cannet.Common.{◌≡◌, refl, [], ◌∷◌}
use cannet.FixedBuffer.{FixedBuffer, append, contents, avail}

abbrev half_full : FixedBuffer
half_full = record { store = 1 ∷ 2 ∷ 0 ∷ 0 ∷ []; cur = 2 }

-- One byte always stays free.
append_two : append (7 ∷ 8 ∷ []) half_full ≡ half_full
unfolding append avail
append_two = refl

append_one : contents (append (7 ∷ []) half_full) ≡ 1 ∷ 2 ∷ 7 ∷ []
unfolding append avail
append_one = refl
