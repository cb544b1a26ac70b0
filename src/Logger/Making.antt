-- ===== src/Logger/Making.antt =====
-- What the threads in `output` of base/Logger.cpp find.
use cannet.Common.{
  ℕ, ◌≤◌, ◌<◌, ◌≡◌, ◌⊎◌, Option, none, some, false, refl, sym, ap, subst, ◌∙◌, inl, inr, true, List,
  arith, ◌==◌, ==_iff, Bool-cases, length, set_at, Returns, Returns-map,
}
use cannet.FixedBuffer.Laws.{int_max}
use cannet.AsyncLogger.{AsyncLogger}
use cannet.AsyncLogger.Appends.{IsSound}
use cannet.AsyncLogger.{round}
use cannet.AsyncLogger.Rounds.{round-Writes}
use cannet.Logger.Output.{
  log_exit, turns, exits, fresh, running, over, Control, outside, calling, initialising, appending,
  Output, create, once_init, append_line, Step, calls, begins, finishes, passes, appends, Reach,
  here, next,
}
use cannet.Logger.Keeping.{
  Fits, is_initialising, Short, Made, Agrees, Inv, all-set_at, Fits-begin, Fits-finish, quiet_fresh,
  alone_off, alone_on, Agrees-moved, Fits-calling, Fits-outside, over_by, running_by,
  append_line-Logs, Logs,
}

module _ (size : ℕ) (new_logger : AsyncLogger) where
  module _ (small : size ≤ int_max) (some_size : 0 < size) (rested : IsSound size new_logger) where
    -- A line is appended only where the object is there.
    not_deleted :
        (room line : List ℕ) (o o' : Output) → append_line room line o ≡ some o' → o.deleted ≡ false
    unfolding append_line
    not_deleted room line o o' h = ground (arith, h)

    dangling : (room line : List ℕ) (o : Output) → o.deleted ≡ true → append_line room line o ≡ none
    unfolding append_line
    dangling room line o h = ground (arith, h)

    turned :
        (c : Control) (o : Output) (l l' : AsyncLogger)
        → o.logger ≡ some l
        → round l ≡ some l'
        → Agrees size new_logger c o
        → Agrees size new_logger c (record o { logger = some l' })
    turned fresh o l l' e h a = absurd (let no : ⊥ = cc (e, a.1) in no)
    turned running o l l' e h a = absurd (let no : ⊥ = cc (e, a.1) in no)
    turned over o l l' e h a =
        let same : a.logger ≡ l = cc (a.found, e) in
        let kept =
          subst (λ m. Returns m (λ x. IsSound size x × Unit)) h
            (Returns-map _ _ (round l)
              (round-Writes size l some_size (subst (IsSound size) same a.sound))
              (λ x p. (p.0, tt))) in
        record { logger = l'; found = refl; sound = kept.0; once = a.once }

    Agrees-deleted :
        (c : Control) (o : Output)
        → Agrees size new_logger c o
        → Agrees size new_logger c (record o { deleted = true })
    Agrees-deleted fresh o a = a
    Agrees-deleted running o a = a
    Agrees-deleted over o a = record {
      logger = a.logger;
      found = a.found;
      sound = a.sound;
      once = a.once;
    }

    exit_as :
        (o : Output) (m : Option AsyncLogger)
        → o.logger ≡ m
        → log_exit o ≡ (elim m [ none ↦ o | some l ↦ record o { deleted = true } ])
    unfolding log_exit
    exit_as o m e =
        ap (λ n. elim n as (λ x. Output) [ none ↦ o | some l ↦ record o { deleted = true } ]) e

    log_exit-Inv :
        (o : Output) (m : Option AsyncLogger)
        → o.logger ≡ m
        → Inv size new_logger o
        → Inv size new_logger (log_exit o)
    unfolding log_exit
    log_exit-Inv o none e v = subst (Inv size new_logger) (sym (exit_as o none e)) v
    log_exit-Inv o (some l) e v = subst (Inv size new_logger) (sym (exit_as o (some l) e)) record {
      agrees = Agrees-deleted o.control o v.agrees;
      fits = v.fits;
      short = v.short;
      alone = v.alone;
    }

    Step-Inv :
        {o o' : Output} → Inv size new_logger o → Step size new_logger o o' → Inv size new_logger o'
    unfolding once_init
    Step-Inv {o} v (calls i line h e) = record {
      agrees = Agrees-moved size new_logger o.control o (set_at i (calling line) o.writer) v.agrees;
      fits =
          all-set_at (Fits o.control) i (calling line) o.writer (Fits-calling o.control line)
            v.fits;
      short = all-set_at (Short size new_logger) i (calling line) o.writer h v.short;
      alone = alone_off size new_logger i (calling line) o.writer refl v.alone;
    }
    Step-Inv {o} v (begins i line e c) =
        let fit = λ (j : ℕ). subst (λ x. Fits x (o.writer j)) c (v.fits j) in
        record {
          agrees = subst (λ x. Agrees size new_logger x o) c v.agrees;
          fits =
              all-set_at (Fits running) i (initialising line) o.writer tt
                (λ j. Fits-begin (o.writer j) (fit j));
          short =
              all-set_at (Short size new_logger) i (initialising line) o.writer
                (subst (Short size new_logger) e (v.short i)) v.short;
          alone =
              alone_on size new_logger i (initialising line) o.writer
                (λ j. quiet_fresh (o.writer j) (fit j));
        }
    Step-Inv {o} v (finishes i line e) =
        let c = running_by o.control line (subst (Fits o.control) e (v.fits i)) in
        let (none_made, none_there) = subst (λ x. Agrees size new_logger x o) c v.agrees in
        let waits : is_initialising (o.writer i) ≡ true = rw e refl in
        record {
          agrees = record {
            logger = new_logger;
            found = refl;
            sound = rested;
            once = omega (arith, none_made);
          };
          fits = λ j. elim (Bool-cases (j == i)) [
            | inl same ↦ rw same tt
            | inr other ↦ rw other (
                Fits-finish (o.writer j) (subst (λ x. Fits x (o.writer j)) c (v.fits j))
                  (elim (Bool-cases (is_initialising (o.writer j))) [
                    | inl too ↦ absurd (
                        let no : ⊥ = ground (arith, other, ==_iff j i, v.alone j i too waits) in no)
                    | inr quiet ↦ quiet
                  ]))
          ];
          short =
              all-set_at (Short size new_logger) i (appending line) o.writer
                (subst (Short size new_logger) e (v.short i)) v.short;
          alone = alone_off size new_logger i (appending line) o.writer refl v.alone;
        }
    Step-Inv {o} v (passes i line e c) = record {
      agrees =
          Agrees-moved size new_logger o.control o (set_at i (appending line) o.writer) v.agrees;
      fits =
          all-set_at (Fits o.control) i (appending line) o.writer
            (subst (λ x. Fits x (appending line)) (sym c) tt) v.fits;
      short =
          all-set_at (Short size new_logger) i (appending line) o.writer
            (subst (Short size new_logger) e (v.short i)) v.short;
      alone = alone_off size new_logger i (appending line) o.writer refl v.alone;
    }
    Step-Inv {o} v (appends i room line o' e r h) =
        let c = over_by o.control line (subst (Fits o.control) e (v.fits i)) in
        let before = subst (λ x. Agrees size new_logger x o) c v.agrees in
        let there = not_deleted room line o o' h in
        let (logs, same_control, same_writer) =
          subst
            (λ m. Returns m (λ x.
              Logs size new_logger line o x × (x.control ≡ o.control) × (x.writer ≡ o.writer)))
            h
            (append_line-Logs size new_logger room line o small r
              (subst (Short size new_logger) e (v.short i)) there before) in
        record {
          agrees =
              Agrees-moved size new_logger o'.control o' (set_at i outside o.writer)
                (subst (λ x. Agrees size new_logger x o') (sym (same_control ∙ c)) logs.1);
          fits =
              all-set_at (Fits o'.control) i outside o.writer (Fits-outside o'.control)
                (subst (λ x. (j : ℕ) → Fits x (o.writer j)) (sym same_control) v.fits);
          short = all-set_at (Short size new_logger) i outside o.writer tt v.short;
          alone = alone_off size new_logger i outside o.writer refl v.alone;
        }
    Step-Inv {o} v (turns l l' e there h) = record {
      agrees = turned o.control o l l' e h v.agrees;
      fits = v.fits;
      short = v.short;
      alone = v.alone;
    }
    Step-Inv {o} v exits = log_exit-Inv o o.logger refl v

    create-Inv : Inv size new_logger create
    unfolding create
    create-Inv = record {
      agrees = (refl, refl);
      fits = λ i. tt;
      short = λ i. tt;
      alone = λ i j a b. absurd (let no : ⊥ = cc a in no);
    }

    Reach-Inv : {o : Output} → Reach size new_logger o → Inv size new_logger o
    Reach-Inv here = create-Inv
    Reach-Inv (next r st) = Step-Inv (Reach-Inv r) st

    -- Whatever threads log in whatever order, with lines that are shorter than a buffer, which an int
    -- measures, and a sound new logger, with turns of the logger's own thread between them and log_exit at
    -- any time: once a thread is past pthread_once, one logger was made, and the pointer that the thread
    -- follows is to it. As long as log_exit has not deleted it, the thread's line goes behind all that
    -- this logger has in its file and its buffers; from then on the thread follows a dangling pointer.
    pub Reach-Made :
        (o : Output) (i : ℕ) (room line : List ℕ)
        → Reach size new_logger o
        → o.writer i ≡ appending line
        → length room ≡ size
        → Made size new_logger o
          × ((o.deleted ≡ false) × Returns (append_line room line o) (Logs size new_logger line o)
              ⊎ ((o.deleted ≡ true) × (append_line room line o ≡ none)))
    Reach-Made o i room line reached e r =
        let v = Reach-Inv reached in
        let c = over_by o.control line (subst (Fits o.control) e (v.fits i)) in
        let made = subst (λ x. Agrees size new_logger x o) c v.agrees in
        (
          made,
          elim (Bool-cases o.deleted) [
            | inl gone ↦ inr (gone, dangling room line o gone)
            | inr there ↦ inl (
              there,
              Returns-map _ _ (append_line room line o)
                  (append_line-Logs size new_logger room line o small r
                    (subst (Short size new_logger) e (v.short i)) there made)
                  (λ o' p. p.0),
            )
          ],
        )
