-- ===== src/LogStream/Lines.antt =====
-- Lines that several `operator<<` of base/LogStream.cpp make.
use cannet.Common.{
  replicate, take-replicate, ℕ, ◌-◌, ◌≤◌, ◌<◌, ◌≡◌, refl, sym, ap, subst, ◌∙◌, ◌⊎◌, inl, inr,
  Option, none, some, List, [], ◌∷◌, ◌++◌, arith, Returns, Returns-bind, Returns-map, ◌>>=◌, length,
  length-append, length-take, append-nil, append_assoc,
}
use cannet.FixedBuffer.{FixedBuffer, contents, reset_data}
use cannet.FixedBuffer.Laws.{IsValid, free}
use cannet.LogStream.{Item, shift, shift_all, reset_buffer}
use cannet.LogStream.Shift.{Prints, needed, Shifted, AllInRange, shift-Shifted}

-- What items leave in a line with that much room: each is printed whole, or dropped where the room is
-- too small for it.
abbrev pub Logged : List Item → ℕ → List ℕ → Type 0
Logged [] room s = s ≡ []
Logged (item ∷ items) room s =
    ((t : List ℕ) × (u : List ℕ) × Prints item t
      × (needed item ≤ room)
      × (s ≡ t ++ u)
      × Logged items (room - length t) u)
    ⊎ ((room < needed item) × Logged items room s)

-- The buffer is valid and of the same size, and has the items behind what it had.
abbrev pub Extended : List Item → FixedBuffer → FixedBuffer → Type 0
Extended items b b' =
    IsValid b'
    × (length b'.store ≡ length b.store)
    × ((s : List ℕ) × (contents b' ≡ contents b ++ s) × Logged items (free b) s)

length-contents : (b : FixedBuffer) → IsValid b → length (contents b) ≡ b.cur
length-contents b v = omega (arith, length-take b.cur b.store, v.within)

free-after :
    (b b' : FixedBuffer) (t : List ℕ)
    → IsValid b
    → IsValid b'
    → length b'.store ≡ length b.store
    → contents b' ≡ contents b ++ t
    → free b' ≡ free b - length t
free-after b b' t v w l c = omega (
  arith,
  ap length c,
  length-append (contents b) t,
  length-contents b v,
  length-contents b' w,
  l,
  v.within,
  w.within,
)

joined :
    (item : Item) (items : List Item) (b b' b'' : FixedBuffer)
    → IsValid b
    → Shifted item b b'
    → Extended items b' b''
    → Extended (item ∷ items) b b''
joined item items b b' b'' v (w, l, inl (t, p, c, fits)) (w', l', (u, c', h)) = (
  w',
  l' ∙ l,
  (
    t ++ u,
    c' ∙ (ap (λ x. x ++ u) c ∙ append_assoc (contents b) t u),
    inl (t, u, p, fits, refl, subst (λ room. Logged items room u) (free-after b b' t v w l c) h),
  ),
)
joined item items b b' b'' v (w, l, inr (same, full)) (w', l', (u, c', h)) = (
  w',
  l' ∙ l,
  (u, c' ∙ ap (λ x. contents x ++ u) same, inr (full, subst (λ x. Logged items (free x) u) same h)),
)

pub shift_all-Extended :
    (items : List Item) (b : FixedBuffer)
    → IsValid b
    → AllInRange items
    → Returns (shift_all items b) (Extended items b)
unfolding shift_all
shift_all-Extended [] b v h = (v, refl, ([], sym (append-nil (contents b)), refl))
shift_all-Extended (item ∷ items) b v h =
    Returns-bind (Shifted item b) (Extended (item ∷ items) b) (shift item b) (shift_all items)
      (shift-Shifted item b v h.0)
      λ b' p.
        Returns-map (Extended items b') (Extended (item ∷ items) b) (shift_all items b')
          (shift_all-Extended items b' p.0 h.1) λ b'' q. joined item items b b' b'' v p q

shift_all-bind :
    (m : Option FixedBuffer) (xs ys : List Item)
    → ((b : FixedBuffer) → shift_all (xs ++ ys) b ≡ (shift_all xs b >>= shift_all ys))
    → (m >>= shift_all (xs ++ ys)) ≡ ((m >>= shift_all xs) >>= shift_all ys)
shift_all-bind none xs ys h = refl
shift_all-bind (some b) xs ys h = h b

-- Items shifted in two goes.
pub shift_all-append :
    (xs ys : List Item) (b : FixedBuffer)
    → shift_all (xs ++ ys) b ≡ (shift_all xs b >>= shift_all ys)
unfolding shift_all
shift_all-append [] ys b = refl
shift_all-append (x ∷ xs) ys b = shift_all-bind (shift x b) xs ys (shift_all-append xs ys)

-- After resetBuffer the line is as long as before, in zeros.
pub reset_buffer-zeros :
    (b : FixedBuffer) → IsValid b → contents (reset_buffer b) ≡ replicate b.cur 0
unfolding reset_buffer reset_data
reset_buffer-zeros b v = take-replicate b.cur (length b.store) 0 (omega (arith, v.within))
