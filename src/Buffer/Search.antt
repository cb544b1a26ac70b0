-- ===== src/Buffer/Search.antt =====
-- findCRLF and findEOL of net/Buffer.h. A pointer is an index into the buffer, nullptr is `none`.
use cannet.Common.{
  ℕ, ◌+◌, ◌-◌, ◌≡◌, ◌≢◌, refl, ap, ◌∙◌, inl, inr, Bool, true, false, ◌&&◌, Option, none, some, List,
  [], ◌∷◌, ◌++◌, arith, ◌==◌, leb, if◌then◌else◌, ◌>>=◌, ◌>>◌, guard, length, drop, slice, sub_size,
  Bool-cases, subst, sym, Returns, take, take-append, drop-append, drop-drop, length-append,
  take-slice,
}
use cannet.Buffer.{Buffer, readable_bytes, peek_bytes, retrieve_until}
use cannet.Buffer.Validity.{IsValid, sizes}
use cannet.Buffer.Contents.{contents, length-contents, retrieve_until_lem}

abbrev pub carriage_return : ℕ
carriage_return = 13

abbrev pub line_feed : ℕ
line_feed = 10

starts_crlf : List ℕ → Bool
starts_crlf [] = false
starts_crlf (c ∷ []) = false
starts_crlf (c ∷ d ∷ rest) = c == carriage_return && d == line_feed

-- std::search for kCRLF in bytes that start at an index.
search_crlf : List ℕ → ℕ → Option ℕ
unfolding starts_crlf
search_crlf [] i = none
search_crlf (c ∷ rest) i = if starts_crlf (c ∷ rest) then some i else search_crlf rest (i + 1)

-- memchr(3) for a line feed.
search_line_feed : List ℕ → ℕ → Option ℕ
search_line_feed [] i = none
search_line_feed (c ∷ rest) i = if c == line_feed then some i else search_line_feed rest (i + 1)

pub find_crlf : Buffer → Option ℕ
unfolding search_crlf
find_crlf b =
    search_crlf (slice b.bytes b.reader_index (sub_size b.writer_index b.reader_index))
      b.reader_index

-- With a start the asserts may fail: the outer `none`.
pub find_crlf_from : ℕ → Buffer → Option (Option ℕ)
unfolding search_crlf
find_crlf_from start b = do
  guard (leb b.reader_index start)
  guard (leb start b.writer_index)
  some (search_crlf (slice b.bytes start (sub_size b.writer_index start)) start)

pub find_eol : Buffer → Option ℕ
unfolding search_line_feed
find_eol b = search_line_feed (peek_bytes b (readable_bytes b)) b.reader_index

pub find_eol_from : ℕ → Buffer → Option (Option ℕ)
unfolding search_line_feed
find_eol_from start b = do
  guard (leb b.reader_index start)
  guard (leb start b.writer_index)
  some (search_line_feed (slice b.bytes start (sub_size b.writer_index start)) start)

abbrev pub crlf : List ℕ
crlf = carriage_return ∷ line_feed ∷ []

abbrev pub eol : List ℕ
eol = line_feed ∷ []

-- The first place where a pattern stands in bytes that start at an index, or none.
pub data First (pattern : List ℕ) : List ℕ → ℕ → Option ℕ → Type 0 where
  found : (rest : List ℕ) (i : ℕ) → First pattern (pattern ++ rest) i (some i)
  missing : (i : ℕ) → First pattern [] i none
  later :
      (x : ℕ) (xs : List ℕ) (i : ℕ) {r : Option ℕ}
      → ((rest : List ℕ) → x ∷ xs ≢ pattern ++ rest)
      → First pattern xs (i + 1) r
      → First pattern (x ∷ xs) i r

starts_crlf-true : (xs : List ℕ) → starts_crlf xs ≡ true → (rest : List ℕ) × (crlf ++ rest ≡ xs)
unfolding starts_crlf
starts_crlf-true [] e = absurd (ground arith)
starts_crlf-true (c ∷ []) e = absurd (ground arith)
starts_crlf-true (c ∷ d ∷ rest) e = (rest, ground arith)

starts_crlf-false : (xs rest : List ℕ) → starts_crlf xs ≡ false → xs ≢ crlf ++ rest
unfolding starts_crlf
starts_crlf-false [] rest e h = ground arith
starts_crlf-false (c ∷ []) rest e h = ground arith
starts_crlf-false (c ∷ d ∷ r) rest e h = ground arith

search_crlf-First : (xs : List ℕ) (i : ℕ) → First crlf xs i (search_crlf xs i)
unfolding search_crlf
search_crlf-First [] i = missing i
search_crlf-First (c ∷ xs) i = elim (Bool-cases (starts_crlf (c ∷ xs))) [
  | inl e ↦
      let (rest, f) = starts_crlf-true (c ∷ xs) e in
      rw e (subst (λ ys. First crlf ys i (some i)) f (found rest i))
  | inr e ↦
      rw e (later c xs i (λ rest. starts_crlf-false (c ∷ xs) rest e) (search_crlf-First xs (i + 1)))
]

search_line_feed-First : (xs : List ℕ) (i : ℕ) → First eol xs i (search_line_feed xs i)
unfolding search_line_feed
search_line_feed-First [] i = missing i
search_line_feed-First (c ∷ xs) i = elim (Bool-cases (c == line_feed)) [
  | inl e ↦ rw e (subst (λ d. First eol (d ∷ xs) i (some i)) (ground arith) (found xs i))
  | inr e ↦ rw e (later c xs i (λ rest h. ground arith) (search_line_feed-First xs (i + 1)))
]

-- `findCRLF` and `findEOL` give the first carriage return with line feed, and the first line feed,
-- of the readable bytes, or nothing where there is none.
pub find-First :
    (b : Buffer)
    → IsValid b
    → First crlf (contents b) b.reader_index (find_crlf b)
      × First eol (contents b) b.reader_index (find_eol b)
unfolding find_crlf find_eol peek_bytes
find-First b v =
    let size : sub_size b.writer_index b.reader_index ≡ b.writer_index - b.reader_index =
      omega arith in
    let size' : readable_bytes b ≡ b.writer_index - b.reader_index = omega (arith, sizes b v) in
    (
      rw size (search_crlf-First (contents b) b.reader_index),
      rw size' (search_line_feed-First (contents b) b.reader_index),
    )

-- Bytes with no carriage return among them.
abbrev pub HasNoReturn : List ℕ → Type 0
HasNoReturn [] = Unit
HasNoReturn (c ∷ rest) = (c ≢ carriage_return) × HasNoReturn rest

search_crlf-line :
    (line rest : List ℕ) (i : ℕ)
    → HasNoReturn line
    → search_crlf (line ++ (crlf ++ rest)) i ≡ some (i + length line)
unfolding search_crlf starts_crlf
search_crlf-line [] rest i h = ground arith
search_crlf-line (c ∷ []) rest i h = ground (arith, search_crlf-line [] rest (i + 1))
search_crlf-line (c ∷ d ∷ line) rest i h =
    ground (arith, search_crlf-line (d ∷ line) rest (i + 1) h.1)

-- One line of a protocol: find its end, take the bytes before it, and go on behind it.
pub read_line : Buffer → Option (List ℕ × Buffer)
unfolding find_crlf
read_line b = do
  end_index ← find_crlf b
  b' ← retrieve_until (end_index + 2) b
  some (peek_bytes b (end_index - b.reader_index), b')

-- `findCRLF` frames a line: the bytes up to it are the line, and `retrieveUntil` just behind it
-- leaves what follows the line, whatever that is.
pub read_line_lem :
    (line rest : List ℕ) (b : Buffer)
    → IsValid b
    → HasNoReturn line
    → contents b ≡ line ++ (crlf ++ rest)
    → Returns (read_line b) (λ r. (r.0 ≡ line) × IsValid r.1 × (contents r.1 ≡ rest))
unfolding read_line find_crlf peek_bytes
read_line_lem line rest b v h e =
    let n = length line in
    let size : sub_size b.writer_index b.reader_index ≡ b.writer_index - b.reader_index =
      omega arith in
    let hit = search_crlf-line line rest b.reader_index h in
    let front : take n (contents b) ≡ line = rw e (take-append n line (crlf ++ rest) refl) in
    let back : drop (n + 2) (contents b) ≡ rest = rw e (
      sym (drop-drop (line ++ (crlf ++ rest)) n 2 (n + 2) refl)
      ∙ ap (drop 2) (drop-append n line (crlf ++ rest) refl)) in
    let room = ap length e in
    rw (size, e, hit)
      (ground (
        arith,
        room,
        length-contents b v,
        length-append line (crlf ++ rest),
        sizes b v,
        front,
        back,
        take-slice b.bytes b.reader_index n (b.writer_index - b.reader_index),
        retrieve_until_lem (b.reader_index + n + 2) b v,
      ))
