-- ===== src/Sockets/Examples.antt =====
-- A kernel that grants some calls.
use agora_im.Shared.{ℕ, ◌≡◌, true, false, some, List, [], Bytes, codes, decimal}
use agora_im.InetAddress.{InetAddress, from_port}
use agora_im.Logger.{Place, fatal}
use agora_im.Buffer.{Answer, failed, moved}
use agora_im.Sockets.{
  Syscall, socket_call, bind_call, listen_call, close_call, shutdown_call, setsockopt_call,
  getsockopt_call, timerfd_create_call, eventfd_call, epoll_create_call, so_reuseaddr, so_reuseport,
  so_keepalive, Process, returns, close, shutdown_write, set_reuse_addr, set_reuse_port,
  set_keep_alive,
}
use agora_im.Sockets.Errors.{after, errors-Returns}

abbrev date : ℕ → Bytes
date n = codes "today"

abbrev reason : ℕ → Bytes
reason n = codes "no"

abbrev line : Place
line = record { clock = 0; thread = 1; file = codes "sockets_ops.cpp"; line = 18 }

-- Descriptor 3 is free, its address is in use, and nothing else succeeds.
abbrev in_use : List Syscall → Syscall → Answer ℕ
in_use before socket_call = moved 3
in_use before timerfd_create_call = failed 24
in_use before eventfd_call = failed 24
in_use before epoll_create_call = failed 24
in_use before (bind_call fd addr) = failed 98
in_use before (listen_call fd) = failed 22
in_use before (close_call fd) = failed 9
in_use before (shutdown_call fd) = failed 107
in_use before (setsockopt_call fd o on) = failed 92
in_use before (getsockopt_call fd) = failed 9

-- The logger prints only messages of the highest level.
abbrev silent : Process
silent = record { logger = record { level = fatal; printed = [] }; calls = [] }

abbrev address : InetAddress
address = from_port 8888 false false

errors-Returns_example :
    (close date decimal reason line in_use (some 3) silent
      ≡ returns tt (
          after date decimal reason line in_use
            (close_call (some 3))
            (codes "Failed to close socket: ")
            silent))
    × (shutdown_write date decimal reason line in_use (some 3) silent
        ≡ returns tt (
            after date decimal reason line in_use
              (shutdown_call (some 3))
              (codes "Failed to shutdown write on socket: ")
              silent))
    × (set_reuse_addr date decimal reason line in_use (some 3) true silent
        ≡ returns tt (
            after date decimal reason line in_use
              (setsockopt_call (some 3) so_reuseaddr true)
              (codes "Failed to set SO_REUSEADDR: ")
              silent))
    × (set_reuse_port date decimal reason line in_use (some 3) true silent
        ≡ returns tt (
            after date decimal reason line in_use
              (setsockopt_call (some 3) so_reuseport true)
              (codes "Failed to set SO_REUSEPORT: ")
              silent))
    × (set_keep_alive date decimal reason line in_use (some 3) true silent
        ≡ returns tt (
            after date decimal reason line in_use
              (setsockopt_call (some 3) so_keepalive true)
              (codes "Failed to set SO_KEEPALIVE: ")
              silent))
errors-Returns_example = errors-Returns date decimal reason line in_use (some 3) true silent
