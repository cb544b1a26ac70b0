-- ===== src/Channel.antt =====
-- net/Channel.h and net/Channel.cpp: one descriptor with its callbacks. Which callbacks are set is
-- part of the state; what they do is the user's.
pub mod Dispatch
mod Tests
use cannet.Common.{
  ℕ, Bool, true, false, not, ◌&&◌, ◌||◌, List, [], ◌∷◌, ◌++◌, if◌then◌else◌, Option, some, guard,
  ◌>>=◌, ◌>>◌,
}
use cannet.Events.{
  Events, k_none_event, k_read_event_lt, k_write_event, union, minus, meets, is_none,
}

-- kNew, kAdded and kDeleted of net/Epoll.h.
pub data Status : Type 0 where
  new added deleted : Status

pub record Channel : Type 0 where
  pub fd : ℕ
  pub events : Events
  pub revents : Events
  pub status : Status
  pub event_handling : Bool
  pub added_to_loop : Bool
  pub has_read : Bool
  pub has_write : Bool
  pub has_close : Bool
  pub has_error : Bool

unfoldable pub create : ℕ → Channel
create fd = record {
  fd = fd;
  events = k_none_event;
  revents = k_none_event;
  status = new;
  event_handling = false;
  added_to_loop = false;
  has_read = false;
  has_write = false;
  has_close = false;
  has_error = false;
}

-- The destructor, with the descriptor that it closes.
unfoldable pub destroy : Channel → Option ℕ
destroy ch = do guard (not ch.event_handling); guard (not ch.added_to_loop); some ch.fd

-- The setters of the callbacks: whether the std::function that is given is not empty.
unfoldable pub set_read_callback : Bool → Channel → Channel
set_read_callback cb ch = record ch { has_read = cb }

unfoldable pub set_write_callback : Bool → Channel → Channel
set_write_callback cb ch = record ch { has_write = cb }

unfoldable pub set_close_callback : Bool → Channel → Channel
set_close_callback cb ch = record ch { has_close = cb }

unfoldable pub set_error_callback : Bool → Channel → Channel
set_error_callback cb ch = record ch { has_error = cb }

unfoldable pub set_status : Status → Channel → Channel
set_status status ch = record ch { status = status }

unfoldable pub set_revents : Events → Channel → Channel
set_revents revents ch = record ch { revents = revents }

unfoldable pub is_none_event : Channel → Bool
unfolding is_none
is_none_event ch = is_none ch.events

unfoldable pub is_writing : Channel → Bool
unfolding meets
is_writing ch = meets ch.events k_write_event

unfoldable pub is_reading : Channel → Bool
unfolding meets
is_reading ch = meets ch.events k_read_event_lt

-- The four callbacks.
pub data Call : Type 0 where
  close_call error_call read_call write_call : Call

unfoldable pub call_if : Bool → Call → List Call
call_if true call = call ∷ []
call_if false call = []

-- `handleEvent`: the callbacks that it makes, in order. The flag `eventHandling_` is set over them.
unfoldable pub handle_event : Channel → List Call × Channel
unfolding call_if
handle_event ch =
    let r = ch.revents in
    (
      call_if ((r.epoll_hup && not r.epoll_in) && ch.has_close) close_call
          ++ (call_if (r.epoll_err && ch.has_error) error_call
              ++ (call_if ((r.epoll_in || (r.epoll_pri || r.epoll_hup)) && ch.has_read) read_call
                  ++ call_if (r.epoll_out && ch.has_write) write_call)),
      record ch { event_handling = false },
    )

-- The callbacks stay.
unfoldable pub channel_reset : ℕ → Channel → Channel
channel_reset socket_id ch = record ch {
  fd = socket_id;
  events = k_none_event;
  revents = k_none_event;
  status = new;
  event_handling = false;
  added_to_loop = false;
}
