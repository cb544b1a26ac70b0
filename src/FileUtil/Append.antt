-- ===== src/FileUtil/Append.antt =====
-- What the append loops of base/FileUtil.cpp and base/File.cpp write, and that they end.
use cannet.Common.{
  ℕ, zero, suc, ◌+◌, ◌-◌, ◌≤◌, ◌<◌, ◌≡◌, refl, sym, ap, subst, ◌∙◌, ◌⊎◌, inl, inr, min, Bool-cases,
  List, ◌++◌, append_assoc, append-nil, ◌==◌, Returns, Returns-map, Returns-bind, length, take,
  slice, take-add, take-all, sub_size, add_size, size_mod, arith,
}
use cannet.FileUtil.{
  OutFile, write, append_loop, append, WriteFile, write_file_loop, write_file_append,
}

-- The file took `m` bytes of the line, all of it unless a call took nothing.
abbrev pub TookFrom : (ℕ → ℕ) → List ℕ → List ℕ → OutFile → Type 0
TookFrom capacity line before f =
    (m : ℕ) × (f.content ≡ before ++ take m line)
    × ((m ≡ length line) ⊎ ((m < length line) × (k : ℕ) × (k < f.calls) × (capacity k ≡ 0)))

module _ (capacity : ℕ → ℕ) (line before : List ℕ) (small : length line < size_mod) where
  -- The loops between two calls: `n` bytes are taken, and `remain` are left.
  abbrev Between : ℕ → ℕ → OutFile → Type 0
  Between n remain f = (n + remain ≡ length line) × (f.content ≡ before ++ take n line)

  write-Between :
      (n remain : ℕ) (f : OutFile)
      → Between n remain f
      → let w = write capacity line n remain f in
        let n' = add_size n w.0 in
        Between n' (sub_size (length line) n') w.1
        × (w.0 ≤ remain)
        × (n' ≡ n + w.0)
        × (w.1.calls ≡ f.calls + 1)
  unfolding write
  write-Between n remain f b =
      let x = min (capacity f.calls) remain in
      let next = take-add n x (n + x) line refl in
      let here : add_size n x ≡ n + x = omega arith in
      let left : sub_size (length line) (n + x) ≡ remain - x = omega arith in
      (
        (
          omega (arith, here, left),
          ap (λ c. c ++ slice line n x) b.1
              ∙ (append_assoc before (take n line) (slice line n x)
                  ∙ ap (λ t. before ++ t) (sym next ∙ ap (λ m. take m line) (sym here))),
        ),
        omega arith,
        here,
        refl,
      )

  append_loop-Took :
      (fuel n remain : ℕ) (f : OutFile)
      → remain < fuel
      → Between n remain f
      → Returns (append_loop fuel capacity line n remain f) (TookFrom capacity line before)
  unfolding append_loop
  append_loop-Took zero n remain f h b = elim h [ ]
  append_loop-Took (suc fuel) n remain f h b = elim (Bool-cases (remain == 0)) [
    | inl done ↦ rw done (n, b.1, inl (ground arith))
    | inr more ↦
        let x = min (capacity f.calls) remain in
        let w = write-Between n remain f b in
        elim (Bool-cases (x == 0)) [
          | inl stop ↦
              rw (more, stop)
                (add_size n x, w.0.1, inr (ground (arith, w), f.calls, omega arith, ground arith))
          | inr go ↦
              rw (more, go) (append_loop-Took fuel (add_size n x) _ _ (ground (arith, w)) w.0)
        ]
  ]

  write_file_loop-Took :
      (fuel n remain : ℕ) (f : OutFile)
      → 0 < remain
      → remain < fuel
      → Between n remain f
      → Returns (write_file_loop fuel capacity line n remain f) (TookFrom capacity line before)
  unfolding write_file_loop
  write_file_loop-Took zero n remain f p h b = elim h [ ]
  write_file_loop-Took (suc fuel) n remain f p h b =
      let x = min (capacity f.calls) remain in
      let n' = add_size n x in
      let w = write-Between n remain f b in
      elim (Bool-cases (x == 0)) [
        | inl stop ↦
            rw stop (n', w.0.1, inr (ground (arith, w), f.calls, omega arith, ground arith))
        | inr go ↦ elim (Bool-cases (sub_size (length line) n' == 0)) [
          | inl done ↦ rw (go, done) (n', w.0.1, inl (ground (arith, w)))
          | inr more ↦
              rw (go, more)
                (write_file_loop-Took fuel n' _ _ (ground arith) (ground (arith, w)) w.0)
        ]
      ]

module _ (capacity : ℕ → ℕ) (line : List ℕ) (small : length line < size_mod) where
  from_start : (f : OutFile) → f.content ≡ f.content ++ take 0 line
  from_start f = sym (append-nil f.content)

  took_all :
      (before : List ℕ) (f : OutFile)
      → TookFrom capacity line before f
      → ((k : ℕ) → 0 < capacity k)
      → f.content ≡ before ++ line
  took_all before f (m, e, inl all) takes =
      e ∙ ap (λ t. before ++ t) (take-all m line (omega (arith, all)))
  took_all before f (m, e, inr short) takes = absurd (omega (arith, takes short.1, short.3))

  -- For a line whose length a size_t holds the loop ends, and the file then ends in the line, or in its
  -- first part where a call took nothing.
  pub append_took :
      (f : OutFile) → Returns (append capacity line f) (TookFrom capacity line f.content)
  unfolding append
  append_took f =
      let w =
        write-Between capacity line f.content small 0 (length line) f (omega arith, from_start f) in
      let x = min (capacity f.calls) (length line) in
      let g = (write capacity line 0 (length line) f).1 in
      let same : add_size 0 x ≡ x = omega arith in
      let b =
        subst
          (λ k.
            (k + sub_size (length line) k ≡ length line) × (g.content ≡ f.content ++ take k line))
          same w.0 in
      append_loop-Took capacity line f.content small (length line + 1) x (sub_size (length line) x)
        g (omega (arith, b)) b

  -- For such a line that is not empty the do-while loop of WriteFile::append ends, and the file then ends
  -- in the line, or in its first part where a call took nothing; the count of written bytes grows by the
  -- whole line either way.
  pub write_file_append_took :
      (f : WriteFile)
      → 0 < length line
      → Returns (write_file_append capacity line f) (λ g.
        TookFrom capacity line f.file.content g.file
        × (g.write_len ≡ add_size f.write_len (length line)))
  unfolding write_file_append
  write_file_append_took f p =
      Returns-bind (TookFrom capacity line f.file.content) _
        (write_file_loop (length line + 1) capacity line 0 (length line) f.file) _
        (write_file_loop-Took capacity line f.file.content small (length line + 1) 0 (length line)
          f.file p (omega arith) (omega arith, from_start f.file))
        (λ file t. (t, refl))

  -- For such a line that is not empty, where every call takes something, the two writers leave the same
  -- file: all of the line behind what was there.
  pub append-write_file_append :
      (f : WriteFile)
      → 0 < length line
      → ((k : ℕ) → 0 < capacity k)
      → Returns (append capacity line f.file) (λ g.
        (g.content ≡ f.file.content ++ line)
        × Returns (write_file_append capacity line f) (λ h. h.file.content ≡ g.content))
  append-write_file_append f p takes =
      Returns-map (TookFrom capacity line f.file.content) _ (append capacity line f.file)
        (append_took f.file)
        (λ g t.
          let whole = took_all f.file.content g t takes in
          (
            whole,
            Returns-map _ _ (write_file_append capacity line f) (write_file_append_took f p)
                (λ h u. took_all f.file.content h.file u.0 takes ∙ sym whole),
          ))
