-- ===== src/Sockets.antt =====
-- include/agora/net/socket.h, sockets_ops.h, src/net/socket.cpp and sockets_ops.cpp: the calls of the
-- system, with what is logged when they fail.
--
-- The state holds the logger and the system calls made so far, the last one at the end. What the
-- kernel answers to a call, given those before it, and strerror are arguments; a descriptor is
-- `none` when it is negative. `accept` is with the acceptor, and `read`, `readv` and `write` are
-- nothing but the system's.
pub mod Ends
pub mod Errors
pub mod Socket
mod Examples
use agora_im.Shared.{
  ℕ, ◌≡◌, Bool, true, false, Option, none, some, List, [], ◌∷◌, ◌++◌, Bytes, codes,
}
use agora_im.InetAddress.{InetAddress, SockAddr}
use agora_im.Logger.{LogLevel, error, fatal, Place, Logger, Outcome, goes_on, aborts, log}
use agora_im.Buffer.{Answer, failed, moved}

abbrev pub Fd : Type 0
Fd = Option ℕ

pub data SocketOption : Type 0 where
  so_reuseaddr so_reuseport so_keepalive : SocketOption

pub data Syscall : Type 0 where
  socket_call timerfd_create_call eventfd_call epoll_create_call : Syscall
  bind_call : Fd → InetAddress → Syscall
  listen_call close_call shutdown_call : Fd → Syscall
  setsockopt_call : Fd → SocketOption → Bool → Syscall
  getsockopt_call : Fd → Syscall

pub record Process : Type 0 where
  pub logger : Logger
  pub calls : List Syscall

-- `dies` is the end of the process by std::abort.
pub data Ended (A : Type 0) : Type 0 where
  returns : A → Process → Ended A
  dies : Process → Ended A

infixl 5 ◌>>=◌
abbrev pub ◌>>=◌ :
    {A B : Type 0} → (Process → Ended A) → (A → Process → Ended B) → Process → Ended B
(m >>= f) p = elim (m p) [ dies q ↦ dies q | returns a q ↦ f a q ]

module _ (kernel : List Syscall → Syscall → Answer ℕ) where
  unfoldable pub invoke : Syscall → Process → Ended (Answer ℕ)
  invoke c p = returns (kernel p.calls c) (record p { calls = p.calls ++ c ∷ [] })

-- What the logger leaves, in the process.
abbrev pub carry : Outcome Unit → Process → Ended Unit
carry (aborts l) p = dies (record p { logger = l })
carry (goes_on u l) p = returns tt (record p { logger = l })

module _ (put_time tid_text strerror : ℕ → Bytes) (at : Place) where
  -- LOG_ERROR and LOG_FATAL.
  unfoldable pub report : LogLevel → Bytes → Process → Ended Unit
  report level msg p = carry (log put_time tid_text at level msg p.logger) p

  -- A call whose failure is logged.
  abbrev pub check : LogLevel → Bytes → Answer ℕ → Process → Ended Unit
  check level msg (moved n) p = returns tt p
  check level msg (failed errno) p = report level (msg ++ strerror errno) p

  abbrev pub fd_of : Answer ℕ → Fd
  fd_of (moved fd) = some fd
  fd_of (failed errno) = none

  -- `getsockname` and `getpeername` fill a local variable; when they fail it has the value that it
  -- happens to have.
  unfoldable pub get_local_addr :
      (name : Answer SockAddr) → (unset : SockAddr) → Process → Ended InetAddress
  get_local_addr (moved s) unset = returns (record { addr = s })
  get_local_addr (failed errno) unset = do
    _ ← report error (codes "sockets::getLocalAddr failed")
    returns (record { addr = unset })

  unfoldable pub get_peer_addr :
      (name : Answer SockAddr) → (unset : SockAddr) → Process → Ended InetAddress
  get_peer_addr (moved s) unset = returns (record { addr = s })
  get_peer_addr (failed errno) unset = do
    _ ← report error (codes "sockets::getPeerAddr failed")
    returns (record { addr = unset })

  module _ (kernel : List Syscall → Syscall → Answer ℕ) where
    unfoldable pub create_nonblocking_or_die : Process → Ended Fd
    create_nonblocking_or_die = do
      r ← invoke kernel socket_call
      _ ← check fatal (codes "Failed to create non-blocking socket: ") r
      returns (fd_of r)

    unfoldable pub bind_or_die : Fd → InetAddress → Process → Ended Unit
    bind_or_die fd addr = do
      r ← invoke kernel (bind_call fd addr)
      check fatal (codes "Failed to bind socket: ") r

    unfoldable pub listen_or_die : Fd → Process → Ended Unit
    listen_or_die fd = do
      r ← invoke kernel (listen_call fd)
      check fatal (codes "Failed to listen on socket: ") r

    unfoldable pub close : Fd → Process → Ended Unit
    close fd = do
      r ← invoke kernel (close_call fd)
      check error (codes "Failed to close socket: ") r

    unfoldable pub shutdown_write : Fd → Process → Ended Unit
    shutdown_write fd = do
      r ← invoke kernel (shutdown_call fd)
      check error (codes "Failed to shutdown write on socket: ") r

    unfoldable pub set_reuse_addr : Fd → Bool → Process → Ended Unit
    set_reuse_addr fd on = do
      r ← invoke kernel (setsockopt_call fd so_reuseaddr on)
      check error (codes "Failed to set SO_REUSEADDR: ") r

    unfoldable pub set_reuse_port : Fd → Bool → Process → Ended Unit
    set_reuse_port fd on = do
      r ← invoke kernel (setsockopt_call fd so_reuseport on)
      check error (codes "Failed to set SO_REUSEPORT: ") r

    unfoldable pub set_keep_alive : Fd → Bool → Process → Ended Unit
    set_keep_alive fd on = do
      r ← invoke kernel (setsockopt_call fd so_keepalive on)
      check error (codes "Failed to set SO_KEEPALIVE: ") r

    -- `SO_ERROR`, or the error of asking for it.
    unfoldable pub get_socket_error : Fd → Process → Ended ℕ
    get_socket_error fd = do
      r ← invoke kernel (getsockopt_call fd)
      returns (elim r [ failed errno ↦ errno | moved value ↦ value ])

    -- The destructor of a `Socket`.
    unfoldable pub destroy : Fd → Process → Ended Unit
    destroy none p = returns tt p
    destroy (some fd) p = close (some fd) p
