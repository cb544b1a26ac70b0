-- ===== src/Buffer/Tests.antt =====
-- net/Buffer.h and net/Buffer.cpp on concrete buffers.
use cannet.Common.{
  ◌-◌, ◌<◌, ◌≡◌, refl, some, List, [], ◌∷◌, arith, ◌>>=◌, Returns, length, take, replicate,
}
use cannet.Buffer.{
  Buffer, create, retrieve, append, retrieve_as_string, retrieve_all_as_string, shrink, unwrite,
  compact, make_space, readable_bytes, writeable_bytes, prependable_bytes, peek_bytes,
}
use cannet.Buffer.Validity.{IsValid, create-IsValid}
use cannet.Buffer.Contents.{contents}
use cannet.Buffer.Search.{First, crlf, eol, find_crlf, find_eol, find-First}
use cannet.Buffer.Ints.{
  int16, int32, append_int, prepend_int, read_int, read_int-append_int, read_int-prepend_int,
}
use cannet.Buffer.Refinement.{
  Op, appends, retrieves, takes, takes_all, run, queue_run, view, run_refines,
}
use cannet.Buffer.Shrink.{shrink_breaks, unwrite_keeps}

-- Three readable bytes, two read ones in front of them, and one writable byte.
abbrev part : Buffer
part = record {
  bytes = 0 ∷ 0 ∷ 0 ∷ 0 ∷ 0 ∷ 0 ∷ 0 ∷ 0 ∷ 5 ∷ 6 ∷ 1 ∷ 2 ∷ 3 ∷ 0 ∷ [];
  reader_index = 10;
  writer_index = 13;
}

part-IsValid : IsValid part
part-IsValid = omega arith

-- The bytes move down to the front to make room.
append_compacts :
    append (7 ∷ 8 ∷ []) part
    ≡ some (record {
      bytes = 0 ∷ 0 ∷ 0 ∷ 0 ∷ 0 ∷ 0 ∷ 0 ∷ 0 ∷ 1 ∷ 2 ∷ 3 ∷ 7 ∷ 8 ∷ 0 ∷ [];
      reader_index = 8;
      writer_index = 13;
    })
unfolding append compact make_space readable_bytes writeable_bytes prependable_bytes
append_compacts = refl

create-IsValid_example :
    Returns (create 16) (λ b. IsValid b × (readable_bytes b ≡ 0) × (writeable_bytes b ≡ 16))
create-IsValid_example = create-IsValid 16 (omega arith)

-- A line, and what follows it.
abbrev lines : Buffer
lines = record {
  bytes = 0 ∷ 0 ∷ 0 ∷ 0 ∷ 0 ∷ 0 ∷ 0 ∷ 0 ∷ 71 ∷ 69 ∷ 13 ∷ 10 ∷ 13 ∷ 10 ∷ [];
  reader_index = 8;
  writer_index = 14;
}

lines-IsValid : IsValid lines
lines-IsValid = omega arith

find-First_example :
    First crlf (contents lines) 8 (find_crlf lines) × First eol (contents lines) 8 (find_eol lines)
find-First_example = find-First lines lines-IsValid

-- Nothing is readable.
abbrev empty : Buffer
empty = record {
  bytes = 0 ∷ 0 ∷ 0 ∷ 0 ∷ 0 ∷ 0 ∷ 0 ∷ 0 ∷ 0 ∷ [];
  reader_index = 8;
  writer_index = 8;
}

read_int-append_int_example :
    Returns
      (append_int int32 0xfffffffe part >>= λ b'.
        retrieve (readable_bytes part) b' >>= read_int int32)
      (λ r. (r.0 ≡ 0xfffffffe) × IsValid r.1 × (contents r.1 ≡ []))
read_int-append_int_example =
    read_int-append_int int32 0xfffffffe part part-IsValid (omega arith) (omega arith)

read_int-prepend_int_example :
    Returns
      (prepend_int int16 3 part >>= read_int int16)
      (λ r. (r.0 ≡ 3) × IsValid r.1 × (contents r.1 ≡ contents part))
unfolding prependable_bytes
read_int-prepend_int_example =
    read_int-prepend_int int16 3 part part-IsValid (omega arith) (omega arith)

abbrev calls : List Op
calls = appends (4 ∷ 5 ∷ 6 ∷ []) ∷ takes 2 ∷ retrieves 1 ∷ takes_all ∷ []

run_refines_example : view (run calls part) ≡ queue_run calls (1 ∷ 2 ∷ 3 ∷ [])
run_refines_example = run_refines calls part part-IsValid (omega arith)

run-calls : view (run calls part) ≡ some (([] ∷ (1 ∷ 2 ∷ []) ∷ [] ∷ (4 ∷ 5 ∷ 6 ∷ []) ∷ []), [])
unfolding run append compact make_space retrieve_as_string readable_bytes writeable_bytes
    prependable_bytes peek_bytes retrieve_all_as_string
run-calls = refl

-- One byte to read, with 1100 bytes in front of it and ten behind.
abbrev drained : Buffer
drained = record { bytes = replicate 1111 0; reader_index = 1100; writer_index = 1101 }

shrink_breaks_example : Returns (shrink 0 drained) (λ b'. length b'.bytes < b'.writer_index)
unfolding readable_bytes writeable_bytes
shrink_breaks_example = shrink_breaks 0 drained (omega arith) (omega arith) (omega arith)

unwrite_keeps_example :
    Returns
      (unwrite 1 part)
      (λ b'. IsValid b' × (contents b' ≡ take (readable_bytes part - 1) (contents part)))
unfolding readable_bytes writeable_bytes
unwrite_keeps_example = unwrite_keeps 1 part part-IsValid (omega arith) (omega arith)
