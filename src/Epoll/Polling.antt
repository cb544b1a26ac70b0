-- ===== src/Epoll/Polling.antt =====
-- Epoll::poll of net/Epoll.cpp, over what epoll_wait(2) answers.
use cannet.Common.{
  ℕ, ◌+◌, ◌≤◌, ◌<◌, ◌≡◌, refl, ap, ◌∙◌, Bool, true, false, Option, none, some, List, [], ◌∷◌, map,
  ◌==◌, if◌then◌else◌, length, arith,
}
use cannet.Events.{Events}
use cannet.SocketOps.{IoResult, failed, count}
use cannet.Channel.{Channel, set_revents}
use cannet.Epoll.{fill_active_channels, grow_events}

-- The events that are ready, at least one, each with the number of its channel, or none, and then errno.
pub data Answer : Type 0 where
  ready : ℕ × Events → List (ℕ × Events) → Answer
  nothing : ℕ → Answer

abbrev pub eintr : ℕ
eintr = 4

-- `size` is that of the event list, `errors` counts the lines logged.
pub record Poller : Type 0 where
  pub channels : ℕ → Channel
  pub size : ℕ
  pub errors : ℕ

-- The constructor's list has kInitEventSize places. A failure of epoll_create1(2) is only logged.
unfoldable pub create : IoResult → (ℕ → Channel) → Poller
create (failed errno) channels = record { channels = channels; size = 16; errors = 1 }
create (count epoll_fd) channels = record { channels = channels; size = 16; errors = 0 }

unfoldable pub log_errno : ℕ → Poller → Poller
log_errno errno p = if errno == eintr then p else record p { errors = p.errors + 1 }

-- The active channels, and what is left.
unfoldable pub poll : Answer → Poller → List ℕ × Poller
unfolding fill_active_channels grow_events log_errno
poll (nothing errno) p = ([], log_errno errno p)
poll (ready first rest) p =
    let returned = first ∷ rest in
    let (active, channels) = fill_active_channels returned p.channels in
    (active, record p { channels = channels; size = grow_events (length returned) p.size })

-- The events that were returned for a channel last.
abbrev pub last_returned : ℕ → List (ℕ × Events) → Option Events
last_returned i [] = none
last_returned i ((j, revents) ∷ rest) = elim (last_returned i rest) [
  | none ↦ if i == j then some revents else none
  | some later ↦ some later
]

abbrev pub with_revents : Option Events → Channel → Channel
unfolding set_revents
with_revents none c = c
with_revents (some revents) c = set_revents revents c

fill-channel :
    (returned : List (ℕ × Events)) (channels : ℕ → Channel) (i : ℕ)
    → (fill_active_channels returned channels).1 i
      ≡ with_revents (last_returned i returned) (channels i)
unfolding fill_active_channels with_revents set_revents
fill-channel [] channels i = refl
fill-channel ((j, revents) ∷ rest) channels i =
    fill-channel rest (λ k. if k == j then set_revents revents (channels k) else channels k) i
    ∙ overridden (last_returned i rest) (i == j)
  where
    overridden :
        (later : Option Events) (t : Bool)
        → with_revents later (if t then set_revents revents (channels i) else channels i)
          ≡ with_revents
              (elim later as (λ o. Option Events) [
                | none ↦ if t then some revents else none
                | some l ↦ some l
              ])
              (channels i)
    overridden none true = refl
    overridden none false = refl
    overridden (some l) true = refl
    overridden (some l) false = refl

fill-active :
    (returned : List (ℕ × Events)) (channels : ℕ → Channel)
    → (fill_active_channels returned channels).0 ≡ map (λ r. r.0) returned
unfolding fill_active_channels
fill-active [] channels = refl
fill-active ((j, revents) ∷ rest) channels =
    ap (λ active. j ∷ active)
      (fill-active rest (λ k. if k == j then set_revents revents (channels k) else channels k))

-- Where epoll_wait(2) answers events, no more than the list has places: their channels are the active
-- ones, in order, each has the events that were returned for it last, no other channel is touched, and
-- the list has a free place afterwards. Nothing is logged.
pub poll_lem :
    (first : ℕ × Events) (rest : List (ℕ × Events)) (p : Poller)
    → length (first ∷ rest) ≤ p.size
    → let (active, p') = poll (ready first rest) p in
      (active ≡ map (λ r. r.0) (first ∷ rest))
      × ((i : ℕ) → p'.channels i ≡ with_revents (last_returned i (first ∷ rest)) (p.channels i))
      × (length (first ∷ rest) < p'.size)
      × (p'.errors ≡ p.errors)
unfolding poll grow_events
poll_lem first rest p h =
    let returned = first ∷ rest in
    (fill-active returned p.channels, fill-channel returned p.channels, ground arith, refl)
