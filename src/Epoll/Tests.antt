-- ===== src/Epoll/Tests.antt =====
-- net/Epoll.cpp on a kernel that is a function from descriptors to events.
use cannet.Common.{
  ℕ, ◌≡◌, ◌≢◌, refl, Bool, true, false, Option, none, some, arith, ◌==◌, if◌then◌else◌, ==_iff,
}
use cannet.Events.{Events, k_none_event, k_read_event_lt, union, minus}
use cannet.Channel.{create}
use cannet.Epoll.{
  Kernel, Ctl, ctl_add, ctl_mod, ctl_del, enable_events, disable_events, disable_all,
}
use cannet.Epoll.Interest.{Updated, update-Updated}

abbrev Table : Type 0
Table = ℕ → Option Events

abbrev put : ℕ → Option Events → Table → Table
put fd e s other = if fd == other then e else s other

abbrev control_at : Option Events → Ctl → ℕ → Events → Table → Bool × Table
control_at none ctl_add fd e s = (true, put fd (some e) s)
control_at none ctl_mod fd e s = (false, s)
control_at none ctl_del fd e s = (false, s)
control_at (some d) ctl_add fd e s = (false, s)
control_at (some d) ctl_mod fd e s = (true, put fd (some e) s)
control_at (some d) ctl_del fd e s = (true, put fd none s)

abbrev control : Ctl → ℕ → Events → Table → Bool × Table
control c fd e s = control_at (s fd) c fd e s

put_self : (fd : ℕ) (e : Option Events) (s : Table) → put fd e s fd ≡ e
put_self fd e s = ground (arith, ==_iff fd fd)

put_other : (fd other : ℕ) (e : Option Events) (s : Table) → fd ≢ other → put fd e s other ≡ s other
put_other fd other e s h = ground (arith, ==_iff fd other)

control-add :
    (s : Table) (fd : ℕ) (e : Events)
    → s fd ≡ none
    → (control ctl_add fd e s).0 ≡ true
    → (control ctl_add fd e s).1 fd ≡ some e
control-add s fd e h = rw h (λ ok. put_self fd (some e) s)

control-mod :
    (s : Table) (fd : ℕ) (e d : Events)
    → s fd ≡ some d
    → (control ctl_mod fd e s).0 ≡ true
    → (control ctl_mod fd e s).1 fd ≡ some e
control-mod s fd e d h = rw h (λ ok. put_self fd (some e) s)

control-del :
    (s : Table) (fd : ℕ) (e d : Events)
    → s fd ≡ some d
    → (control ctl_del fd e s).0 ≡ true
    → (control ctl_del fd e s).1 fd ≡ none
control-del s fd e d h = rw h (λ ok. put_self fd none s)

control-missing :
    (s : Table) (fd : ℕ) (e : Events) → s fd ≡ none → control ctl_del fd e s ≡ (false, s)
control-missing s fd e h = rw h

control_at-other :
    (r : Option Events) (c : Ctl) (s : Table) (fd other : ℕ) (e : Events)
    → fd ≢ other
    → (control_at r c fd e s).1 other ≡ s other
control_at-other none ctl_add s fd other e h = put_other fd other (some e) s h
control_at-other none ctl_mod s fd other e h = refl
control_at-other none ctl_del s fd other e h = refl
control_at-other (some d) ctl_add s fd other e h = refl
control_at-other (some d) ctl_mod s fd other e h = put_other fd other (some e) s h
control_at-other (some d) ctl_del s fd other e h = put_other fd other none s h

control_at-refused :
    (o : Option Events) (c : Ctl) (s : Table) (fd : ℕ) (e : Events)
    → (control_at o c fd e s).0 ≡ false
    → (control_at o c fd e s).1 fd ≡ s fd
control_at-refused none ctl_add s fd e h = cc h
control_at-refused none ctl_mod s fd e h = refl
control_at-refused none ctl_del s fd e h = refl
control_at-refused (some d) ctl_add s fd e h = refl
control_at-refused (some d) ctl_mod s fd e h = cc h
control_at-refused (some d) ctl_del s fd e h = cc h

abbrev table : Kernel
table = record {
  State = Table;
  registered = λ s fd. s fd;
  ctl = control;
  close = λ fd s. put fd none s;
  add_lem = control-add;
  mod_lem = control-mod;
  del_lem = control-del;
  refused_lem = λ c s fd e h. control_at-refused (s fd) c s fd e h;
  del_missing = control-missing;
  ctl_other = λ c s fd other e h. control_at-other (s fd) c s fd other e h;
  close_lem = λ s fd. put_self fd none s;
  close_other = λ s fd other h. put_other fd other none s h;
}

abbrev nothing : Table
nothing fd = none

update-Updated_example :
    Updated table
      (create 5)
      (union k_none_event k_read_event_lt)
      nothing
      (enable_events table k_read_event_lt (create 5) nothing)
    × Updated table
        (create 5)
        (minus k_none_event k_read_event_lt)
        nothing
        (disable_events table k_read_event_lt (create 5) nothing)
    × Updated table (create 5) k_none_event nothing (disable_all table (create 5) nothing)
unfolding create
update-Updated_example = update-Updated table (create 5) k_read_event_lt nothing refl
