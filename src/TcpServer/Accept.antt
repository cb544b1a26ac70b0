-- ===== src/TcpServer/Accept.antt =====
-- The accept loop of net/TcpServer.cpp hands its connections to the loops in turn.
use cannet.Common.{
  ℕ, zero, suc, ◌+◌, ◌≡◌, ◌≢◌, refl, sym, ap, subst, ◌∙◌, ◌⊎◌, inl, inr, Bool, true, false,
  Bool-cases, Option, some, List, [], ◌∷◌, ◌++◌, map, append-nil, append_assoc, length, replicate,
  ◌==◌, if◌then◌else◌, ◌>>=◌, Returns, Returns-map, Returns-some, arith,
}
use native.Mathlib.Nat.{mod-eq_of_lt}
use cannet.SocketOps.{IoResult-cases, IoResult, failed, count, eagain, emfile, accept}
use cannet.EventLoop.{EventLoop, queue_in_loop}
use cannet.EventLoopThreadPool.{EventLoopThreadPool, get_next_loop}
use cannet.EventLoopThreadPool.RoundRobin.{
  IsServing, Takes, Moves, rotation, get_next_loop-Takes, rotate_first,
}
use cannet.TcpServer.{
  TcpServer, Answers, set_loop, new_connection, out_of_files, is_last, accept_hand_read,
}

-- The connections that come before the loop ends.
abbrev pub taken_by : IoResult → List ℕ → List ℕ
taken_by (count conn_fd) more = conn_fd ∷ more
taken_by (failed errno) more = if errno == eagain then [] else more

abbrev pub taken : List Answers → List ℕ
taken [] = []
taken (a ∷ rest) = taken_by (accept a.after_log a.accepted) (taken rest)

-- One of the answers ends the loop.
abbrev pub Ends : List Answers → Type 0
Ends [] = ⊥
Ends (a ∷ rest) = (is_last a ≡ true) ⊎ Ends rest

-- Of some descriptors, those that go to one loop.
abbrev pub share : ℕ → List ℕ → List ℕ → List ℕ
share j (l ∷ ls) (fd ∷ fds) = let more = share j ls fds in if j == l then fd ∷ more else more
share j _ _ = []

-- The descriptors went to the loops in turn; `j` is one of the loops.
abbrev pub HandsFrom : ℕ → List ℕ → EventLoopThreadPool → (ℕ → EventLoop) → TcpServer → Type 0
HandsFrom j fds pool loops s =
    (ls : List ℕ) × (map some ls ≡ rotation pool.loops pool.num_threads pool.next (length fds))
    × Moves pool (length fds) s.pool
    × ((s.loops j).functors ≡ (loops j).functors ++ share j ls fds)

abbrev pub Hands : ℕ → List ℕ → TcpServer → TcpServer → Type 0
Hands j fds s s' = HandsFrom j fds s.pool s.loops s'

new_connection-queues :
    (j l fd : ℕ) (rest : List ℕ) (in_thread : Bool) (loops : ℕ → EventLoop)
    → (set_loop l (queue_in_loop in_thread fd (loops l)) loops j).functors ++ rest
      ≡ (loops j).functors ++ (if j == l then fd ∷ rest else rest)
unfolding queue_in_loop
new_connection-queues j l fd rest in_thread loops =
    ground (arith, append_assoc (loops j).functors (fd ∷ []) rest)

-- A connection taken, and others behind it.
new_connection-Hands :
    (j fd : ℕ) (fds : List ℕ) (s : TcpServer) (finish : TcpServer → Option TcpServer)
    → IsServing s.pool
    → ((t : TcpServer) → IsServing t.pool → Returns (finish t) (Hands j fds t))
    → Returns (new_connection fd s >>= finish) (Hands j (fd ∷ fds) s)
unfolding new_connection
new_connection-Hands j fd fds s finish v h =
    let (r, e, t) =
      Returns-some (Takes s.pool) (get_next_loop s.pool) (get_next_loop-Takes s.pool v) in
    let in_thread = r.0 == s.pool.base_loop in
    let s' : TcpServer = record s {
      pool = r.1;
      loops = set_loop r.0 (queue_in_loop in_thread fd (s.loops r.0)) s.loops;
    } in
    rw e (
      Returns-map (Hands j fds s') _ (finish s') (h s' t.1) (λ u k.
        let turns = rotate_first s.pool r.1 u.pool r.0 (length fds) k.0 v t (k.1, k.2) in
        (
          r.0 ∷ k.0,
          turns.0,
          turns.1,
          k.3 ∙ new_connection-queues j r.0 fd (share j k.0 fds) in_thread s.loops,
        )))

out_of_files-keeps :
    (a : Answers) (s : TcpServer)
    → ((out_of_files a s).pool ≡ s.pool) × ((out_of_files a s).loops ≡ s.loops)
unfolding out_of_files
out_of_files-keeps a s = ground arith

not_last : (a : Answers) (fd : ℕ) → accept a.after_log a.accepted ≡ count fd → is_last a ≢ true
unfolding is_last
not_last a fd e last = cc

goes_on :
    (a : Answers) (errno : ℕ)
    → accept a.after_log a.accepted ≡ failed errno
    → (errno == eagain) ≡ false
    → is_last a ≢ true
unfolding is_last
goes_on a errno e again last = ground arith

stays : (p : EventLoopThreadPool) → IsServing p → Moves p 0 p
stays p v =
    let still : p.next + 0 ≡ p.next = omega arith in
    (v, refl, refl, rw still (sym (mod-eq_of_lt v.within)))

-- With a started pool that has loops, and a kernel that answers EAGAIN at last: the accept loop ends,
-- and each connection taken before goes to the next loop in turn, as the last functor of that loop;
-- errors other than EAGAIN cost none of them their turn.
pub accept_hand_read-Hands :
    (j : ℕ) (answers : List Answers) (s : TcpServer)
    → IsServing s.pool
    → Ends answers
    → Returns (accept_hand_read answers s) (Hands j (taken answers) s)
unfolding accept_hand_read
accept_hand_read-Hands j [] s v ends = elim ends [ ]
accept_hand_read-Hands j (a ∷ rest) s v ends =
    elim (IoResult-cases (accept a.after_log a.accepted)) [
      | inr (fd, e) ↦
          let more : Ends rest = elim ends [
            | inl last ↦ absurd (not_last a fd e last)
            | inr more ↦ more
          ] in
          rw e (
            new_connection-Hands j fd (taken rest) s (accept_hand_read rest) v
              (λ t w. accept_hand_read-Hands j rest t w more))
      | inl (errno, e) ↦ elim (Bool-cases (errno == eagain)) [
        | inl again ↦
            rw (e, again) ([], refl, stays s.pool v, sym (append-nil (s.loops j).functors))
        | inr again ↦
            let more : Ends rest = elim ends [
              | inl last ↦ absurd (goes_on a errno e again last)
              | inr more ↦ more
            ] in
            let t = out_of_files a s in
            let k = out_of_files-keeps a s in
            rw (e, again)
              (elim (Bool-cases (errno == emfile)) [
                | inl full ↦ rw full (
                    subst
                      (λ p. Returns (accept_hand_read rest t) (HandsFrom j (taken rest) p s.loops))
                      k.0
                      (subst
                        (λ l. Returns (accept_hand_read rest t) (HandsFrom j (taken rest) t.pool l))
                        k.1 (accept_hand_read-Hands j rest t (subst IsServing (sym k.0) v) more)))
                | inr other ↦ rw other (accept_hand_read-Hands j rest s v more)
              ])
      ]
    ]

-- The server after `n` rounds with such an answer.
abbrev pub spun : ℕ → ℕ → Answers → TcpServer → TcpServer
spun zero errno a s = s
spun (suc n) errno a s = spun n errno a (if errno == emfile then out_of_files a s else s)

-- While accept4(2) goes on answering an error other than EAGAIN, and the error is left in errno, the
-- accept loop goes on: after any number of such rounds it is as if it started again on what comes then,
-- with the server changed by no more than the idle descriptor of EMFILE.
pub accept_hand_read_spins :
    (n errno : ℕ) (a : Answers) (rest : List Answers) (s : TcpServer)
    → a.accepted ≡ failed errno
    → accept a.after_log (failed errno) ≡ failed errno
    → errno ≢ eagain
    → accept_hand_read (replicate n a ++ rest) s ≡ accept_hand_read rest (spun n errno a s)
unfolding accept_hand_read
accept_hand_read_spins zero errno a rest s e f h = refl
accept_hand_read_spins (suc n) errno a rest s e f h =
    let r : accept a.after_log a.accepted ≡ failed errno = ap (accept a.after_log) e ∙ f in
    let again : (errno == eagain) ≡ false = ground arith in
    rw (r, again)
      (accept_hand_read_spins n errno a rest (if errno == emfile then out_of_files a s else s) e f
        h)
