-- ===== src/Events.antt =====
-- Sets of epoll flags: the unsigned masks of net/Channel.h, one field for each bit that the program
-- tests or sets.
use cannet.Common.{Bool, true, false, not, ◌&&◌, ◌||◌}

pub record Events : Type 0 where
  pub epoll_in : Bool
  pub epoll_pri : Bool
  pub epoll_out : Bool
  pub epoll_err : Bool
  pub epoll_hup : Bool
  pub epoll_et : Bool

abbrev pub k_none_event : Events
k_none_event = record {
  epoll_in = false;
  epoll_pri = false;
  epoll_out = false;
  epoll_err = false;
  epoll_hup = false;
  epoll_et = false;
}

abbrev pub k_read_event_lt : Events
k_read_event_lt = record k_none_event { epoll_in = true; epoll_pri = true }

abbrev pub k_read_event_et : Events
k_read_event_et = record k_none_event { epoll_in = true; epoll_pri = true; epoll_et = true }

abbrev pub k_write_event : Events
k_write_event = record k_none_event { epoll_out = true }

-- a | b
unfoldable pub union : Events → Events → Events
union a b = record {
  epoll_in = a.epoll_in || b.epoll_in;
  epoll_pri = a.epoll_pri || b.epoll_pri;
  epoll_out = a.epoll_out || b.epoll_out;
  epoll_err = a.epoll_err || b.epoll_err;
  epoll_hup = a.epoll_hup || b.epoll_hup;
  epoll_et = a.epoll_et || b.epoll_et;
}

-- a & ~b
unfoldable pub minus : Events → Events → Events
minus a b = record {
  epoll_in = a.epoll_in && not b.epoll_in;
  epoll_pri = a.epoll_pri && not b.epoll_pri;
  epoll_out = a.epoll_out && not b.epoll_out;
  epoll_err = a.epoll_err && not b.epoll_err;
  epoll_hup = a.epoll_hup && not b.epoll_hup;
  epoll_et = a.epoll_et && not b.epoll_et;
}

-- (a & b) != 0
unfoldable pub meets : Events → Events → Bool
meets a b =
    (a.epoll_in && b.epoll_in)
    || ((a.epoll_pri && b.epoll_pri)
        || ((a.epoll_out && b.epoll_out)
            || ((a.epoll_err && b.epoll_err)
                || ((a.epoll_hup && b.epoll_hup) || (a.epoll_et && b.epoll_et)))))

-- a == 0
unfoldable pub is_none : Events → Bool
is_none a =
    not
      (a.epoll_in || (a.epoll_pri || (a.epoll_out || (a.epoll_err || (a.epoll_hup || a.epoll_et)))))
