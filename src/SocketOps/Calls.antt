-- ===== src/SocketOps/Calls.antt =====
-- The functions of net/SocketOps.cpp that set a socket up and take it down. Each makes one system call, whose answer is
-- an argument, and logs where it fails. The calls are recorded in order, as the kernel is given them.
use cannet.Common.{ℕ, ◌+◌, Bool, List, [], ◌∷◌, ◌++◌, Option, none, some, if◌then◌else◌}
use cannet.SocketOps.{IoResult, failed, count}

-- The flags that setsockopt(2) is used for.
pub data Flag : Type 0 where
  keep_alive tcp_no_delay reuse_addr reuse_port : Flag

-- A descriptor is none where it is below 0.
pub data SysCall : Type 0 where
  stream_socket dgram_socket : SysCall
  binds : Option ℕ → ℕ → SysCall
  listens : Option ℕ → SysCall
  sets : Option ℕ → Flag → ℕ → SysCall
  connects : Option ℕ → ℕ → SysCall
  closes : Option ℕ → SysCall
  shuts_write : Option ℕ → SysCall
  asks_peer : Option ℕ → SysCall
  asks_local : Option ℕ → SysCall

-- `errors` counts the lines logged.
pub record Trace : Type 0 where
  pub calls : List SysCall
  pub errors : ℕ

unfoldable pub make_call : SysCall → Trace → Trace
make_call call t = record t { calls = t.calls ++ (call ∷ []) }

unfoldable pub log_failure : IoResult → Trace → Trace
log_failure (failed errno) t = record t { errors = t.errors + 1 }
log_failure (count n) t = t

unfoldable pub fd_of : IoResult → Option ℕ
fd_of (failed errno) = none
fd_of (count fd) = some fd

-- The names say that the program ends where these fail: they log, and go on.
unfoldable pub create_stream_nonblocking_or_die : IoResult → Trace → Option ℕ × Trace
unfolding make_call log_failure fd_of
create_stream_nonblocking_or_die answer t =
    (fd_of answer, log_failure answer (make_call stream_socket t))

unfoldable pub create_dgram_nonblocking_or_die : IoResult → Trace → Option ℕ × Trace
unfolding make_call log_failure fd_of
create_dgram_nonblocking_or_die answer t =
    (fd_of answer, log_failure answer (make_call dgram_socket t))

unfoldable pub bind_or_die : IoResult → Option ℕ → ℕ → Trace → Trace
unfolding make_call log_failure
bind_or_die answer fd addr t = log_failure answer (make_call (binds fd addr) t)

unfoldable pub listen_or_die : IoResult → Option ℕ → Trace → Trace
unfolding make_call log_failure
listen_or_die answer fd t = log_failure answer (make_call (listens fd) t)

-- on ? 1 : 0
abbrev pub optval : Bool → ℕ
optval on = if on then 1 else 0

unfoldable pub set_keep_alive : Option ℕ → Bool → Trace → Trace
unfolding make_call
set_keep_alive fd on t = make_call (sets fd keep_alive (optval on)) t

unfoldable pub set_tcp_no_delay : Option ℕ → Bool → Trace → Trace
unfolding make_call
set_tcp_no_delay fd on t = make_call (sets fd tcp_no_delay (optval on)) t

unfoldable pub set_reuse_addr : Option ℕ → Bool → Trace → Trace
unfolding make_call
set_reuse_addr fd on t = make_call (sets fd reuse_addr (optval on)) t

-- The only flag whose failure is logged, where it was to be switched on.
unfoldable pub set_reuse_port : IoResult → Option ℕ → Bool → Trace → Trace
unfolding make_call log_failure
set_reuse_port answer fd on t =
    let t' = make_call (sets fd reuse_port (optval on)) t in
    if on then log_failure answer t' else t'

-- The answer is passed on, and nothing logged.
unfoldable pub connect : IoResult → Option ℕ → ℕ → Trace → IoResult × Trace
unfolding make_call
connect answer fd addr t = (answer, make_call (connects fd addr) t)

unfoldable pub close : IoResult → Option ℕ → Trace → Trace
unfolding make_call log_failure
close answer fd t = log_failure answer (make_call (closes fd) t)

unfoldable pub shutdown_write : IoResult → Option ℕ → Trace → Trace
unfolding make_call log_failure
shutdown_write answer fd t = log_failure answer (make_call (shuts_write fd) t)

-- The address that the kernel stores, or the one of zeros where it stores none.
abbrev pub addr_of : IoResult → ℕ → ℕ
addr_of (failed errno) stored = 0
addr_of (count n) stored = stored

unfoldable pub get_peer_addr : IoResult → ℕ → Option ℕ → Trace → ℕ × Trace
unfolding make_call log_failure
get_peer_addr answer stored fd t =
    (addr_of answer stored, log_failure answer (make_call (asks_peer fd) t))

unfoldable pub get_local_addr : IoResult → ℕ → Option ℕ → Trace → ℕ × Trace
unfolding make_call log_failure
get_local_addr answer stored fd t =
    (addr_of answer stored, log_failure answer (make_call (asks_local fd) t))
