-- ===== src/Epoll/Interest.antt =====
-- The interest set of the kernel follows the events of each channel.
use cannet.Common.{
  ℕ, Bool, true, false, Option, none, some, ◌≡◌, ◌≢◌, refl, arith, Returns, ◌⊎◌, inl, inr,
  Bool-cases,
}
use cannet.Events.{Events, k_none_event, union, minus}
use cannet.Channel.{Channel, Status, new, added, deleted, is_none_event}
use cannet.Epoll.{
  Kernel, ctl_add, ctl_mod, ctl_del, Outcome, update, update_channel, channel_update, enable_events,
  disable_events, disable_all, remove_channel, remove,
}

module _ (k : Kernel) where
  open k use {
    State, registered, ctl, close, add_lem, mod_lem, del_lem, del_missing, ctl_other, close_lem,
    refused_lem, close_other,
  }

  -- What the kernel watches for a channel of this status and these events.
  abbrev pub watched : Status → Events → Option Events
  watched new e = none
  watched added e = some e
  watched deleted e = none

  -- The kernel watches the channel's descriptor for its events, exactly when its status says so.
  abbrev pub InSync : Channel → State → Type 0
  InSync ch s = registered s ch.fd ≡ watched ch.status ch.events

  -- The channel has its new events. Where epoll_ctl succeeds it is in step with the kernel; where it
  -- is refused the kernel watches what it watched.
  abbrev pub Updated : Channel → Events → State → Outcome k → Type 0
  Updated ch e s (done, ch', s') =
      (((done ≡ true) × InSync ch' s')
        ⊎ ((done ≡ false) × (registered s' ch.fd ≡ registered s ch.fd)))
      × (ch'.fd ≡ ch.fd)
      × (ch'.events ≡ e)
      × (ch'.added_to_loop ≡ true)

  module _ (ch : Channel) (e : Events) (s : State) where
    abbrev UpdatedFrom : Status → Type 0
    UpdatedFrom st =
        ch.status ≡ st
        → registered s ch.fd ≡ watched st ch.events
        → Updated ch e s (channel_update k (record ch { events = e }) s)

    updated_added : UpdatedFrom added
    unfolding channel_update update_channel update
    updated_added h w = elim (Bool-cases (is_none_event (record ch { events = e }))) [
      | inl quiet ↦ elim (Bool-cases (ctl ctl_del ch.fd e s).0) [
        | inl ok ↦
            rw (h, quiet, ok) (inl (refl, del_lem s ch.fd e ch.events w ok), refl, refl, refl)
        | inr refused ↦
            rw (h, quiet, refused)
              (inr (refl, refused_lem ctl_del s ch.fd e refused), refl, refl, refl)
      ]
      | inr busy ↦ elim (Bool-cases (ctl ctl_mod ch.fd e s).0) [
        | inl ok ↦ rw (h, busy, ok) (inl (refl, mod_lem s ch.fd e ch.events w ok), refl, refl, refl)
        | inr refused ↦
            rw (h, busy, refused)
              (inr (refl, refused_lem ctl_mod s ch.fd e refused), refl, refl, refl)
      ]
    ]

    updated_new : UpdatedFrom new
    unfolding channel_update update_channel update
    updated_new h w = elim (Bool-cases (ctl ctl_add ch.fd e s).0) [
      | inl ok ↦ rw (h, ok) (inl (refl, add_lem s ch.fd e w ok), refl, refl, refl)
      | inr refused ↦
          rw (h, refused) (inr (refl, refused_lem ctl_add s ch.fd e refused), refl, refl, refl)
    ]

    updated_deleted : UpdatedFrom deleted
    unfolding channel_update update_channel update
    updated_deleted h w = elim (Bool-cases (ctl ctl_add ch.fd e s).0) [
      | inl ok ↦ rw (h, ok) (inl (refl, add_lem s ch.fd e w ok), refl, refl, refl)
      | inr refused ↦
          rw (h, refused) (inr (refl, refused_lem ctl_add s ch.fd e refused), refl, refl, refl)
    ]

  channel_update-Updated :
      (ch : Channel) (e : Events) (st : Status) (s : State)
      → ch.status ≡ st
      → registered s ch.fd ≡ watched st ch.events
      → Updated ch e s (channel_update k (record ch { events = e }) s)
  channel_update-Updated ch e new s h w = updated_new ch e s h w
  channel_update-Updated ch e deleted s h w = updated_deleted ch e s h w
  channel_update-Updated ch e added s h w = updated_added ch e s h w

  -- `enableEvents`, `disableEvents` and `disableAll` on a channel that is in step with the kernel: each
  -- makes one call of epoll_ctl. Where it succeeds the channel is in step again, under its new events;
  -- where it is refused the kernel watches what it watched, and the channel has its new events all the same.
  pub update-Updated :
      (ch : Channel) (e : Events) (s : State)
      → InSync ch s
      → Updated ch (union ch.events e) s (enable_events k e ch s)
        × Updated ch (minus ch.events e) s (disable_events k e ch s)
        × Updated ch k_none_event s (disable_all k ch s)
  unfolding enable_events disable_events disable_all
  update-Updated ch e s h = (
    channel_update-Updated ch (union ch.events e) ch.status s refl h,
    channel_update-Updated ch (minus ch.events e) ch.status s refl h,
    channel_update-Updated ch k_none_event ch.status s refl h,
  )

  channel_update-other :
      (c : Channel) (st : Status) (s : State) (other : ℕ)
      → c.status ≡ st
      → c.fd ≢ other
      → registered (channel_update k c s).2 other ≡ registered s other
  unfolding channel_update update_channel update
  channel_update-other c new s other e ne =
      ground (arith, ctl_other ctl_add s c.fd other c.events ne)
  channel_update-other c deleted s other e ne =
      ground (arith, ctl_other ctl_add s c.fd other c.events ne)
  channel_update-other c added s other e ne = ground (
    arith,
    ctl_other ctl_del s c.fd other c.events ne,
    ctl_other ctl_mod s c.fd other c.events ne,
  )

  -- The same calls leave what the kernel watches for any other descriptor.
  pub update-other :
      (ch : Channel) (e : Events) (s : State) (other : ℕ)
      → ch.fd ≢ other
      → (registered (enable_events k e ch s).2 other ≡ registered s other)
        × (registered (disable_events k e ch s).2 other ≡ registered s other)
        × (registered (disable_all k ch s).2 other ≡ registered s other)
  unfolding enable_events disable_events disable_all
  update-other ch e s other h = (
    channel_update-other (record ch { events = union ch.events e }) ch.status s other refl h,
    channel_update-other (record ch { events = minus ch.events e }) ch.status s other refl h,
    channel_update-other (record ch { events = k_none_event }) ch.status s other refl h,
  )

  abbrev pub is_not_added : Status → Bool
  is_not_added new = true
  is_not_added added = false
  is_not_added deleted = true

  remove_channel-status :
      (ch : Channel) (st : Status) (s : State)
      → ch.status ≡ st
      → let (done, ch', s') = remove_channel k ch s in
        (done ≡ is_not_added st) × (ch'.status ≡ new) × (registered s' ch.fd ≡ none)
  unfolding remove_channel update
  remove_channel-status ch new s e = ground (arith, close_lem s ch.fd)
  remove_channel-status ch deleted s e = ground (arith, close_lem s ch.fd)
  remove_channel-status ch added s e =
      ground (arith, close_lem s ch.fd, del_missing (close ch.fd s) ch.fd ch.events)

  remove_channel-kept :
      (ch : Channel) (st : Status) (s : State)
      → ch.status ≡ st
      → let (done, ch', s') = remove_channel k ch s in
        (ch'.fd ≡ ch.fd) × (ch'.added_to_loop ≡ ch.added_to_loop)
  unfolding remove_channel update
  remove_channel-kept ch new s e = ground arith
  remove_channel-kept ch deleted s e = ground arith
  remove_channel-kept ch added s e = ground arith

  -- A channel without events is removed: the kernel no longer watches its descriptor, and it can be
  -- added again. Where its status was still "added", epoll_ctl fails, since the descriptor was
  -- closed first.
  pub remove_lem :
      (ch : Channel) (s : State)
      → is_none_event ch ≡ true
      → Returns (remove k ch s) (λ r.
        (r.0 ≡ is_not_added ch.status)
        × (r.1.status ≡ new)
        × (r.1.added_to_loop ≡ false)
        × InSync r.1 r.2)
  unfolding remove is_none_event
  remove_lem ch s h = ground (
    arith,
    remove_channel-status (record ch { added_to_loop = false }) ch.status s refl,
    remove_channel-kept (record ch { added_to_loop = false }) ch.status s refl,
  )

  remove_channel-other :
      (ch : Channel) (st : Status) (s : State) (other : ℕ)
      → ch.status ≡ st
      → ch.fd ≢ other
      → registered (remove_channel k ch s).2 other ≡ registered s other
  unfolding remove_channel update
  remove_channel-other ch new s other e h = ground (arith, close_other s ch.fd other h)
  remove_channel-other ch deleted s other e h = ground (arith, close_other s ch.fd other h)
  remove_channel-other ch added s other e h = ground (
    arith,
    close_other s ch.fd other h,
    ctl_other ctl_del (close ch.fd s) ch.fd other ch.events h,
  )

  -- `remove` leaves what the kernel watches for any other descriptor, and the channel's own.
  pub remove-other :
      (ch : Channel) (s : State) (other : ℕ)
      → is_none_event ch ≡ true
      → ch.fd ≢ other
      → Returns
          (remove k ch s)
          (λ r. (registered r.2 other ≡ registered s other) × (r.1.fd ≡ ch.fd))
  unfolding remove is_none_event
  remove-other ch s other h ne = ground (
    arith,
    remove_channel-other (record ch { added_to_loop = false }) ch.status s other refl ne,
    remove_channel-kept (record ch { added_to_loop = false }) ch.status s refl,
  )
