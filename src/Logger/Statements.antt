-- ===== src/Logger/Statements.antt =====
-- What a log statement of base/Logger.h adds to the log.
use cannet.Common.{
  ℕ, ◌≤◌, ◌<◌, ◌≡◌, refl, sym, ap, ◌∙◌, Option, none, some, List, ◌++◌, ℤ, arith, Returns,
  Returns-bind, length, length-take, subst, ◌>>=◌,
}
use cannet.FixedBuffer.{FixedBuffer, contents}
use cannet.FixedBuffer
use cannet.FixedBuffer.Laws.{IsValid, int_max, free}
use cannet.LogStream.{Item, shift_all}
use cannet.LogStream.Shift.{AllInRange}
use cannet.LogStream.Lines.{Logged, Extended, shift_all-Extended, shift_all-append}
use cannet.AsyncLogger.{AsyncLogger}
use cannet.AsyncLogger.Appends.{IsSound, stream, append_logs}
use cannet.AsyncLogger
use cannet.Logger.{Logger, k_small_buffer, time_items, place_items, create, destroy, log}

-- All that a statement shifts.
abbrev pub statement : List ℕ → List ℕ → ℤ → List Item → List Item
statement time filename line items = time_items time ++ (items ++ place_items filename line)

bind_assoc :
    (m : Option FixedBuffer) (f : FixedBuffer → Option FixedBuffer) (k : FixedBuffer → AsyncLogger)
    → (m >>= λ b. f b >>= λ b'. some (k b')) ≡ ((m >>= f) >>= λ b'. some (k b'))
bind_assoc none f k = refl
bind_assoc (some b) f k = refl

abbrev logger_of : ℤ → List ℕ → FixedBuffer → Logger
logger_of line basename b = record { stream = b; line = line; basename = basename }

-- The steps of a statement, one after the other, are one.
chain :
    (m : Option FixedBuffer) (f : FixedBuffer → Option FixedBuffer)
    (g : List ℕ → ℤ → FixedBuffer → Option FixedBuffer) (k : FixedBuffer → AsyncLogger) (line : ℤ)
    (basename : List ℕ)
    → ((m >>= λ b. some (logger_of line basename b)) >>= λ logger.
        f logger.stream >>= λ b. g logger.basename logger.line b >>= λ b'. some (k b'))
      ≡ ((m >>= λ b. f b >>= g basename line) >>= λ b. some (k b))
chain none f g k line basename = refl
chain (some b) f g k line basename = bind_assoc (f b) (g basename line) k

shifted-nested :
    (m : Option FixedBuffer) (xs ys : List Item)
    → (m >>= λ b. shift_all xs b >>= shift_all ys) ≡ (m >>= shift_all (xs ++ ys))
shifted-nested none xs ys = refl
shifted-nested (some b) xs ys = sym (shift_all-append xs ys b)

-- A statement shifts all of its items into one line, and hands the line on.
log-shift_all :
    (store fresh time filename : List ℕ) (line : ℤ) (items : List Item) (l : AsyncLogger)
    → log store fresh time filename line items l ≡ (
        shift_all (statement time filename line items) (FixedBuffer.create store) >>= λ b.
        some (AsyncLogger.append fresh (contents b) l))
unfolding log create destroy
log-shift_all store fresh time filename line items l =
    let places = place_items filename line in
    let begun = shift_all (time_items time) (FixedBuffer.create store) in
    chain begun (shift_all items) (λ basename n. shift_all (place_items basename n))
      (λ b. AsyncLogger.append fresh (contents b) l) line filename
    ∙ ap (λ m. m >>= λ b. some (AsyncLogger.append fresh (contents b) l))
        (shifted-nested begun items places
          ∙ sym (shift_all-append (time_items time) (items ++ places) (FixedBuffer.create store)))

-- A log statement whose items are in range, on a sound logger with buffers no smaller than a line, puts
-- one line behind all that was logged: the time, the items and the place in the source, in order, where
-- each is printed whole or, if what is left of the 4000 bytes is too small for it, dropped.
pub log-Logged :
    (size : ℕ) (store fresh time filename : List ℕ) (line : ℤ) (items : List Item) (l : AsyncLogger)
    → k_small_buffer ≤ size
    → size ≤ int_max
    → length store ≡ k_small_buffer
    → length fresh ≡ size
    → AllInRange (statement time filename line items)
    → IsSound size l
    → Returns (log store fresh time filename line items l) (λ l'.
      IsSound size l'
      × ((s : List ℕ) × (stream size l' ≡ stream size l ++ s)
          × Logged (statement time filename line items) k_small_buffer s))
unfolding FixedBuffer.create
log-Logged size store fresh time filename line items l small large e f h sound =
    let b = FixedBuffer.create store in
    let v : IsValid b = record { within = omega (arith, e); small = omega (arith, e) } in
    rw (log-shift_all store fresh time filename line items l) (
      Returns-bind (Extended (statement time filename line items) b) _ _ _
        (shift_all-Extended (statement time filename line items) b v h)
        λ b' (w, same, (s, c, logged)).
          let short : length (contents b') < size =
            omega (arith, length-take b'.cur b'.store, w.within, same, e, small) in
          let (sound', appended) = append_logs size fresh (contents b') l large f short sound in
          let room : free b ≡ k_small_buffer = omega (arith, e) in
          (
            sound',
            (
              s,
              appended ∙ ap (λ x. stream size l ++ x) c,
              subst (λ n. Logged (statement time filename line items) n s) room logged,
            ),
          ))
