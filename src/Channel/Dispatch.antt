-- ===== src/Channel/Dispatch.antt =====
-- Which callbacks `handleEvent` of net/Channel.cpp makes.
use cannet.Common.{true, false, ◌≡◌, ◌↔◌, ◌⊎◌, List, [], ◌∷◌, arith}
use cannet.Channel.{Channel, Call, close_call, error_call, read_call, write_call, handle_event}

-- A callback is among those made.
abbrev pub Made : Call → List Call → Type 0
Made c [] = ⊥
Made c (d ∷ ds) = (c ≡ d) ⊎ Made c ds

-- Under a hang-up with nothing to read the close callback is made, and the read callback after it,
-- which then meets a connection that is already closed.
pub handle_event_hang_up :
    (ch : Channel)
    → ch.has_close ≡ true
    → ch.has_read ≡ true
    → ch.revents.epoll_hup ≡ true
    → ch.revents.epoll_in ≡ false
    → ch.revents.epoll_err ≡ false
    → ch.revents.epoll_out ≡ false
    → (handle_event ch).0 ≡ close_call ∷ read_call ∷ []
unfolding handle_event
handle_event_hang_up ch a b c d e f = ground arith

-- With all four callbacks set, each is made exactly when the returned events ask for it.
pub handle_event-Made :
    (ch : Channel)
    → ch.has_close ≡ true
    → ch.has_read ≡ true
    → ch.has_write ≡ true
    → ch.has_error ≡ true
    → let calls = (handle_event ch).0 in
      let r = ch.revents in
      (Made close_call calls ↔ ((r.epoll_hup ≡ true) × (r.epoll_in ≡ false)))
      × (Made error_call calls ↔ (r.epoll_err ≡ true))
      × (Made read_call calls
          ↔ ((r.epoll_in ≡ true) ⊎ ((r.epoll_pri ≡ true) ⊎ (r.epoll_hup ≡ true))))
      × (Made write_call calls ↔ (r.epoll_out ≡ true))
unfolding handle_event
handle_event-Made ch a b c d = ground arith
