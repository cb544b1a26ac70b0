-- ===== src/Epoll.antt =====
-- net/Epoll.h and net/Epoll.cpp, and the operations of net/Channel.h that go through
-- EventLoop::updateChannel and removeChannel to it. epoll_ctl(2) and close(2) are the kernel's: they
-- are an interface with what the manual pages say of them.
pub mod Interest
pub mod Connections
pub mod Ownership
pub mod Placing
pub mod Reuse
pub mod Destroying
pub mod Polling
mod Tests
use cannet.Common.{
  ℕ, ◌+◌, ◌-◌, ◌*◌, Bool, true, false, not, ◌&&◌, ◌||◌, Option, none, some, List, [], ◌∷◌, ◌≡◌, ◌≢◌,
  ◌==◌, if◌then◌else◌, ◌>>=◌, ◌>>◌, guard,
}
use cannet.Events.{Events, k_none_event, union, minus, is_none}
use cannet.Channel.{Channel, Status, new, added, deleted, is_none_event, set_revents, set_status}

pub data Ctl : Type 0 where
  ctl_add ctl_mod ctl_del : Ctl

-- The descriptors that an epoll instance watches, with their events.
pub record Kernel : Type 1 where
  pub State : Type 0
  pub registered : State → ℕ → Option Events
  pub ctl : Ctl → ℕ → Events → State → Bool × State
  pub close : ℕ → State → State
  pub add_lem :
      (s : State) (fd : ℕ) (e : Events)
      → registered s fd ≡ none
      → (ctl ctl_add fd e s).0 ≡ true
      → registered (ctl ctl_add fd e s).1 fd ≡ some e
  pub mod_lem :
      (s : State) (fd : ℕ) (e d : Events)
      → registered s fd ≡ some d
      → (ctl ctl_mod fd e s).0 ≡ true
      → registered (ctl ctl_mod fd e s).1 fd ≡ some e
  pub del_lem :
      (s : State) (fd : ℕ) (e d : Events)
      → registered s fd ≡ some d
      → (ctl ctl_del fd e s).0 ≡ true
      → registered (ctl ctl_del fd e s).1 fd ≡ none
  -- EBADF, EPERM, ENOSPC, ENOMEM and the like change nothing.
  pub refused_lem :
      (c : Ctl) (s : State) (fd : ℕ) (e : Events)
      → (ctl c fd e s).0 ≡ false
      → registered (ctl c fd e s).1 fd ≡ registered s fd
  -- ENOENT and EBADF
  pub del_missing :
      (s : State) (fd : ℕ) (e : Events) → registered s fd ≡ none → ctl ctl_del fd e s ≡ (false, s)
  pub ctl_other :
      (c : Ctl) (s : State) (fd other : ℕ) (e : Events)
      → fd ≢ other
      → registered (ctl c fd e s).1 other ≡ registered s other
  -- A closed descriptor leaves the set.
  pub close_lem : (s : State) (fd : ℕ) → registered (close fd s) fd ≡ none
  pub close_other :
      (s : State) (fd other : ℕ) → fd ≢ other → registered (close fd s) other ≡ registered s other

module _ (k : Kernel) where
  open k use {State, ctl, close}

  -- An answer, and the channel and the interest set that are left: true where epoll_ctl succeeded.
  abbrev pub Outcome : Type 0
  Outcome = Bool × Channel × State

  -- Epoll::update, with the channel's own events.
  update : Ctl → Channel → State → Bool × State
  update operation ch s = ctl operation ch.fd ch.events s

  unfoldable pub update_channel : Channel → State → Outcome
  unfolding update is_none_event set_status
  update_channel ch s = elim ch.status [
    | added ↦
        if is_none_event ch
        then (let (done, s') = update ctl_del ch s in (done, set_status deleted ch, s'))
        else (let (done, s') = update ctl_mod ch s in (done, ch, s'))
    | _ ↦ let ch' = set_status added ch in let (done, s') = update ctl_add ch' s in (done, ch', s')
  ]

  -- Channel::update
  channel_update : Channel → State → Outcome
  unfolding update_channel
  channel_update ch s = update_channel (record ch { added_to_loop = true }) s

  unfoldable pub enable_events : Events → Channel → State → Outcome
  unfolding channel_update union
  enable_events events ch s = channel_update (record ch { events = union ch.events events }) s

  unfoldable pub disable_events : Events → Channel → State → Outcome
  unfolding channel_update minus
  disable_events events ch s = channel_update (record ch { events = minus ch.events events }) s

  unfoldable pub disable_all : Channel → State → Outcome
  unfolding channel_update
  disable_all ch s = channel_update (record ch { events = k_none_event }) s

  -- Epoll::removeChannel on the descriptor: it is closed before it is taken off the set.
  unfoldable pub remove_channel : Channel → State → Outcome
  unfolding update set_status
  remove_channel ch s =
      let s' = close ch.fd s in
      let ch' = set_status new ch in
      elim ch.status [
        | added ↦ let (done, s'') = update ctl_del ch s' in (done, ch', s'')
        | _ ↦ (true, ch', s')
      ]

  -- Channel::remove
  unfoldable pub remove : Channel → State → Option Outcome
  unfolding remove_channel is_none_event
  remove ch s = do
    guard (is_none_event ch)
    some (remove_channel (record ch { added_to_loop = false }) s)

-- Epoll::poll: the returned events are put into their channels, and a full event list is doubled.
-- `returned` holds the events with the indices of their channels, from epoll_wait(2).
unfoldable pub fill_active_channels : List (ℕ × Events) → (ℕ → Channel) → List ℕ × (ℕ → Channel)
unfolding set_revents
fill_active_channels [] channels = ([], channels)
fill_active_channels ((i, revents) ∷ rest) channels =
    let (active, channels') =
      fill_active_channels rest
        (λ j. if j == i then set_revents revents (channels j) else channels j) in
    (i ∷ active, channels')

-- The size of the event list after `count` events were returned.
unfoldable pub grow_events : ℕ → ℕ → ℕ
grow_events count size = if count == size then size * 2 else size
