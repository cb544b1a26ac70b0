-- ===== src/Channel/Tests.antt =====
-- Channel::handleEvent of net/Channel.cpp on concrete returned events.
use cannet.Common.{true, ◌≡◌, refl, [], ◌∷◌}
use cannet.Events.{k_none_event, k_read_event_lt}
use cannet.Channel.{Channel, error_call, read_call, write_call, create, handle_event}

abbrev hung_up : Channel
hung_up = record (create 5) {
  revents = record k_none_event { epoll_hup = true };
  has_read = true;
  has_write = true;
  has_close = true;
  has_error = true;
}

abbrev ready : Channel
ready = record hung_up { revents = record k_read_event_lt { epoll_out = true; epoll_err = true } }

ready_calls : (handle_event ready).0 ≡ error_call ∷ read_call ∷ write_call ∷ []
unfolding handle_event create
ready_calls = refl
