-- ===== src/Buffer/Ints.antt =====
-- The integers of net/Buffer.h in network byte order. An intN_t is its two's complement pattern, a
-- number below 256 ^ (N / 8).
use native.Mathlib.Nat.{pow-suc}
use cannet.Common.{
  ℕ, zero, suc, ◌+◌, ◌-◌, ◌*◌, ◌/◌, ◌%◌, ◌^◌, ◌≤◌, ◌<◌, ◌≡◌, refl, sym, ap, ◌∙◌, Option, some, List,
  [], ◌∷◌, ◌++◌, arith, leb, ◌>>=◌, ◌>>◌, guard, Returns, Returns-bind, max_size, length, take,
  drop, length-append, append-nil, take-append, drop-append, take-slice,
}
use cannet.Buffer.{Buffer, readable_bytes, prependable_bytes, peek_bytes, retrieve, append, prepend}
use cannet.Buffer.Validity.{IsValid, sizes}
use cannet.Buffer.Contents.{contents, append_lem, prepend_lem, retrieve_lem, length-contents}

pub data Width : Type 0 where
  int8 int16 int32 int64 : Width

-- sizeof
abbrev pub size_of : Width → ℕ
size_of int8 = 1
size_of int16 = 2
size_of int32 = 4
size_of int64 = 8

-- htobe16, htobe32 and htobe64, as the bytes that are then copied; a byte is itself.
be_bytes : ℕ → ℕ → List ℕ
be_bytes zero x = []
be_bytes (suc k) x = be_bytes k (x / 256) ++ (x % 256 ∷ [])

-- be16toh, be32toh and be64toh of copied bytes.
be_value : ℕ → List ℕ → ℕ
be_value acc [] = acc
be_value acc (c ∷ rest) = be_value (acc * 256 + c) rest

pub append_int : Width → ℕ → Buffer → Option Buffer
unfolding be_bytes
append_int w x b = append (be_bytes (size_of w) x) b

pub prepend_int : Width → ℕ → Buffer → Option Buffer
unfolding be_bytes
prepend_int w x b = prepend (be_bytes (size_of w) x) b

pub peek_int : Width → Buffer → Option ℕ
unfolding be_value
peek_int w b = do
  guard (leb (size_of w) (readable_bytes b))
  some (be_value 0 (peek_bytes b (size_of w)))

pub retrieve_int : Width → Buffer → Option Buffer
retrieve_int w b = retrieve (size_of w) b

pub read_int : Width → Buffer → Option (ℕ × Buffer)
unfolding peek_int retrieve_int
read_int w b = do result ← peek_int w b; b' ← retrieve_int w b; some (result, b')

be_value-append :
    (xs ys : List ℕ) (acc : ℕ) → be_value acc (xs ++ ys) ≡ be_value (be_value acc xs) ys
unfolding be_value
be_value-append [] ys acc = refl
be_value-append (x ∷ xs) ys acc = be_value-append xs ys (acc * 256 + x)

length-be_bytes : (k x : ℕ) → length (be_bytes k x) ≡ k
unfolding be_bytes
length-be_bytes zero x = refl
length-be_bytes (suc k) x =
    omega (arith, length-append (be_bytes k (x / 256)) (x % 256 ∷ []), length-be_bytes k (x / 256))

be_value-be_bytes : (k x : ℕ) → x < 256 ^ k → be_value 0 (be_bytes k x) ≡ x
unfolding be_bytes be_value
be_value-be_bytes zero x h = omega arith
be_value-be_bytes (suc k) x h =
    be_value-append (be_bytes k (x / 256)) (x % 256 ∷ []) 0
    ∙ ap (λ y. y * 256 + x % 256) (be_value-be_bytes k (x / 256) (omega (arith, pow-suc 256 k)))
    ∙ omega arith

-- An integer at the front of the readable bytes is read back as itself, and what is behind it stays.
read_int_lem :
    (w : Width) (x : ℕ) (rest : List ℕ) (b : Buffer)
    → IsValid b
    → x < 256 ^ size_of w
    → contents b ≡ be_bytes (size_of w) x ++ rest
    → Returns (read_int w b) (λ r. (r.0 ≡ x) × IsValid r.1 × (contents r.1 ≡ rest))
unfolding read_int peek_bytes
read_int_lem w x rest b v h e =
    let k = size_of w in
    let image = be_bytes k x in
    let size = length-be_bytes k x in
    let front : take k (contents b) ≡ image = rw e (take-append k image rest (sym size)) in
    let back : drop k (contents b) ≡ rest = rw e (drop-append k image rest (sym size)) in
    ground (
      arith,
      sizes b v,
      length-contents b v,
      ap length e,
      length-append image rest,
      size,
      front,
      back,
      be_value-be_bytes k x h,
      take-slice b.bytes b.reader_index k (b.writer_index - b.reader_index),
      retrieve_lem k b v,
    )

-- What `appendIntN` wrote behind the readable bytes of any buffer is the integer that is read once
-- those bytes are retrieved, and nothing is readable then.
pub read_int-append_int :
    (w : Width) (x : ℕ) (b : Buffer)
    → IsValid b
    → x < 256 ^ size_of w
    → length b.bytes + size_of w ≤ max_size
    → Returns
        (append_int w x b >>= λ b'. retrieve (readable_bytes b) b' >>= read_int w)
        (λ r. (r.0 ≡ x) × IsValid r.1 × (contents r.1 ≡ []))
unfolding append_int
read_int-append_int w x b v h room =
    let image = be_bytes (size_of w) x in
    let size = length-be_bytes (size_of w) x in
    let waiting = length-contents b v in
    Returns-bind
      (λ b'.
        IsValid b'
        × (contents b' ≡ contents b ++ image)
        × (length b'.bytes ≤ length b.bytes + length image))
      _ (append image b) _ (append_lem image b v (omega (arith, size)))
      λ b' p.
        let joined = length-append (contents b) image in
        let enough : readable_bytes b ≤ readable_bytes b' =
          omega (arith, waiting, length-contents b' p.0, ap length p.1, joined) in
        Returns-bind
          (λ b''.
            IsValid b''
            × (contents b'' ≡ drop (readable_bytes b) (contents b'))
            × (length b''.bytes ≡ length b'.bytes))
          _ (retrieve (readable_bytes b) b') (read_int w)
          (retrieve_lem (readable_bytes b) b' p.0 enough)
          λ b'' q.
            let left : contents b'' ≡ image ++ [] =
              q.1
              ∙ ap (drop (readable_bytes b)) p.1
              ∙ drop-append (readable_bytes b) (contents b) image (sym waiting)
              ∙ sym (append-nil image) in
            read_int_lem w x [] b'' q.0 h left

-- What `prependIntN` wrote in front of the readable bytes is the next integer to be read, and
-- reading it leaves the bytes as they were.
pub read_int-prepend_int :
    (w : Width) (x : ℕ) (b : Buffer)
    → IsValid b
    → size_of w ≤ prependable_bytes b
    → x < 256 ^ size_of w
    → Returns
        (prepend_int w x b >>= read_int w)
        (λ r. (r.0 ≡ x) × IsValid r.1 × (contents r.1 ≡ contents b))
unfolding prepend_int
read_int-prepend_int w x b v room h =
    let image = be_bytes (size_of w) x in
    let size = length-be_bytes (size_of w) x in
    Returns-bind
      (λ b'. IsValid b' × (contents b' ≡ image ++ contents b) × (length b'.bytes ≡ length b.bytes))
      (λ r. (r.0 ≡ x) × IsValid r.1 × (contents r.1 ≡ contents b)) (prepend image b) (read_int w)
      (prepend_lem image b v (omega (arith, size)))
      λ b' p. read_int_lem w x (contents b) b' p.0 h p.1
