-- ===== src/EventLoopThreadPool/RoundRobin.antt =====
-- getNextLoop of net/EventLoopThreadPool.cpp goes round its loops.
use native.Mathlib.Nat.{mod-add-mod, mod-mod, mod-lt, mod-eq_of_lt}
use mathlib.Core.Path.{ap₂}
use cannet.Common.{
  ℕ, zero, suc, ◌+◌, ◌%◌, ◌<◌, ◌≡◌, refl, sym, ap, ◌∙◌, true, Option, some, List, [], ◌∷◌, map,
  length, get_elem?, get_elem?_of_lt, ◌>>=◌, Returns, Returns-bind, add_size, size_mod, arith,
}
use cannet.EventLoopThreadPool.{
  EventLoopThreadPool, create, set_thread_num, start_loops, start, get_next_loop,
}

-- A pool that was started with at least one thread.
pub record IsServing (p : EventLoopThreadPool) : Type 0 where
  pub started : p.started ≡ true
  pub sized : length p.loops ≡ p.num_threads
  pub within : p.next < p.num_threads
  pub small : p.num_threads < size_mod

length-start_loops : (start_loop : ℕ → ℕ) (n i : ℕ) → length (start_loops start_loop n i) ≡ n
length-start_loops start_loop zero i = refl
length-start_loops start_loop (suc n) i = omega (arith, length-start_loops start_loop n (i + 1))

start-IsServing :
    (base_loop n : ℕ) (start_loop : ℕ → ℕ)
    → 0 < n
    → n < size_mod
    → Returns (start start_loop (set_thread_num n (create base_loop))) IsServing
unfolding start set_thread_num create
start-IsServing base_loop n start_loop h small = record {
  started = refl;
  sized = length-start_loops start_loop n 0;
  within = h;
  small = small;
}

-- One call takes the loop at `next` and moves on by one, from the last to the first.
abbrev pub Takes : EventLoopThreadPool → ℕ × EventLoopThreadPool → Type 0
Takes p r =
    (get_elem? p.loops p.next ≡ some r.0)
    × IsServing r.1
    × (r.1.loops ≡ p.loops)
    × (r.1.num_threads ≡ p.num_threads)
    × (r.1.next ≡ (p.next + 1) % p.num_threads)

pub get_next_loop-Takes :
    (p : EventLoopThreadPool) → IsServing p → Returns (get_next_loop p) (Takes p)
unfolding get_next_loop
get_next_loop-Takes p s =
    let (loop, e) = get_elem?_of_lt p.loops p.next (omega (arith, s.sized, s.within)) in
    let wrapped : add_size p.next 1 ≡ p.next + 1 = omega (arith, s.within, s.small) in
    let in_range = mod-lt (p.next + 1) {m = p.num_threads} (omega (arith, s.within)) in
    ground (arith, e, s, wrapped, in_range)

-- `k` connections taken one after the other.
abbrev pub next_loops : ℕ → EventLoopThreadPool → Option (List ℕ × EventLoopThreadPool)
next_loops zero p = some ([], p)
next_loops (suc k) p = do r ← get_next_loop p; more ← next_loops k r.1; some (r.0 ∷ more.0, more.1)

-- The loops at a position and behind it, round and round.
abbrev pub rotation : List ℕ → ℕ → ℕ → ℕ → List (Option ℕ)
rotation loops n pos zero = []
rotation loops n pos (suc k) = get_elem? loops (pos % n) ∷ rotation loops n (pos + 1) k

rotation_mod :
    (loops : List ℕ) (n pos k : ℕ) → rotation loops n (pos % n) k ≡ rotation loops n pos k
rotation_mod loops n pos zero = refl
rotation_mod loops n pos (suc k) =
    let first : pos % n % n ≡ pos % n = mod-mod pos n in
    let rest =
      sym (rotation_mod loops n (pos % n + 1) k)
      ∙ (ap (λ m. rotation loops n m k) (mod-add-mod pos n 1) ∙ rotation_mod loops n (pos + 1) k) in
    ap (λ m. get_elem? loops m ∷ rotation loops n (pos % n + 1) k) first
    ∙ ap (λ r. get_elem? loops (pos % n) ∷ r) rest

-- The pool serves on, and only its position has moved.
abbrev pub Moves : EventLoopThreadPool → ℕ → EventLoopThreadPool → Type 0
Moves p k p' =
    IsServing p'
    × (p'.loops ≡ p.loops)
    × (p'.num_threads ≡ p.num_threads)
    × (p'.next ≡ (p.next + k) % p.num_threads)

-- One loop taken, and `k` more.
pub rotate_first :
    (p p' p'' : EventLoopThreadPool) (l k : ℕ) (ls : List ℕ)
    → IsServing p
    → Takes p (l, p')
    → (map some ls ≡ rotation p'.loops p'.num_threads p'.next k) × Moves p' k p''
    → (map some (l ∷ ls) ≡ rotation p.loops p.num_threads p.next (suc k)) × Moves p (suc k) p''
rotate_first p p' p'' l k ls s t m =
    let after : rotation p'.loops p'.num_threads p'.next k
        ≡ rotation p.loops p.num_threads ((p.next + 1) % p.num_threads) k =
      cc (t.2, t.3, t.4) in
    let moved : (p'.next + k) % p'.num_threads
        ≡ ((p.next + 1) % p.num_threads + k) % p.num_threads =
      cc (t.3, t.4) in
    let further : p.next + 1 + k ≡ p.next + suc k = omega arith in
    let here : get_elem? p.loops (p.next % p.num_threads) ≡ some l =
      ap (get_elem? p.loops) (mod-eq_of_lt s.within) ∙ t.0 in
    (
      ap₂ ◌∷◌ (sym here) (m.0 ∙ (after ∙ rotation_mod p.loops p.num_threads (p.next + 1) k)),
      (
        m.1.0,
        m.1.1 ∙ t.2,
        m.1.2 ∙ t.3,
        m.1.3
            ∙ (moved
                ∙ (mod-add-mod (p.next + 1) p.num_threads k ∙ ap (λ x. x % p.num_threads) further)),
      ),
    )

-- A started pool that has loops hands them out in turn: `k` calls answer the `k` loops from the
-- position on, round and round, and leave the position `k` further on.
pub next_loops_rotate :
    (k : ℕ) (p : EventLoopThreadPool)
    → IsServing p
    → Returns
        (next_loops k p)
        (λ r. (map some r.0 ≡ rotation p.loops p.num_threads p.next k) × Moves p k r.1)
next_loops_rotate zero p s =
    let still : p.next + 0 ≡ p.next = omega arith in
    (refl, (s, refl, refl, rw still (sym (mod-eq_of_lt s.within))))
next_loops_rotate (suc k) p s =
    Returns-bind (Takes p) _ (get_next_loop p) _ (get_next_loop-Takes p s) (λ r t.
      Returns-bind _ _ (next_loops k r.1) _ (next_loops_rotate k r.1 t.1)
        (λ more m. rotate_first p r.1 more.1 r.0 k more.0 s t m))
