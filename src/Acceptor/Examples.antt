-- ===== src/Acceptor/Examples.antt =====
-- Two connections, and then none.
use agora_im.Shared.{ℕ, true, false, none, some, List, [], ◌∷◌, Bytes, codes, decimal, ◌≡◌, refl}
use agora_im.InetAddress.{InetAddress, from_port}
use agora_im.Logger.{Place, new}
use agora_im.Buffer.{Answer, moved}
use agora_im.Sockets.{
  Fd, Syscall, socket_call, bind_call, listen_call, close_call, shutdown_call, setsockopt_call,
  Ended, returns, dies, getsockopt_call, timerfd_create_call, eventfd_call, epoll_create_call,
  Process, create_nonblocking_or_die, invoke, bind_or_die, listen_or_die, set_reuse_addr,
  set_reuse_port,
}
use agora_im.Sockets.Ends.{Granted, Ends}
use agora_im.Acceptor.Opening.{open_socket, open_and_listen, IsBound, open_and_listen-Ends}
use agora_im.Shared.{ℕ, ◌≡◌, refl, true, false, none, some, List, [], ◌∷◌, ◌++◌}
use agora_im.Acceptor.{Accepted, connection, failed, is_expected, Acceptor, handle_read}
use agora_im.Acceptor.Burst.{burst}

-- It keeps the descriptors.
abbrev acceptor : Acceptor (List ℕ)
acceptor = record {
  listening = true;
  reading = true;
  callback = some (λ fd peer fds. some (fds ++ fd ∷ []));
}

abbrev two : List (ℕ × ℕ)
two = (9, 1000) ∷ (10, 2000) ∷ []

-- Both are handed over.
handed : handle_read acceptor (burst two (failed 11 ∷ [])) ([], []) ≡ some ((9 ∷ 10 ∷ [], []), [])
unfolding handle_read agora_im.Acceptor.hand_over burst is_expected
handed = refl

-- A kernel that gives descriptor 3 and grants everything else.
abbrev granting : List Syscall → Syscall → Answer ℕ
granting before socket_call = moved 3
granting before timerfd_create_call = moved 4
granting before eventfd_call = moved 4
granting before epoll_create_call = moved 4
granting before (bind_call fd addr) = moved 0
granting before (listen_call fd) = moved 0
granting before (close_call fd) = moved 0
granting before (shutdown_call fd) = moved 0
granting before (setsockopt_call fd o on) = moved 0
granting before (getsockopt_call fd) = moved 0

abbrev text : ℕ → Bytes
text n = codes "now"

abbrev line : Place
line = record { clock = 0; thread = 1; file = codes "sockets_ops.cpp"; line = 25 }

abbrev started : Process
started = record { logger = new; calls = [] }

abbrev everywhere : InetAddress
everywhere = from_port 8888 false false

-- It returns the descriptor.
abbrev fd_of : Ended Fd → Fd
fd_of (returns fd q) = fd
fd_of (dies q) = none

opens_three :
    fd_of (open_and_listen text decimal text line granting true everywhere started) ≡ some 3
unfolding open_and_listen open_socket create_nonblocking_or_die bind_or_die listen_or_die
    set_reuse_addr set_reuse_port invoke
opens_three = refl

open_and_listen-Ends_example :
    Ends text decimal text line
      (λ fd q.
        (q' : Process) × IsBound text decimal text line granting true everywhere started fd q'
        × Granted text decimal text line granting (listen_call fd) q' q)
      (open_and_listen text decimal text line granting true everywhere started)
open_and_listen-Ends_example =
    open_and_listen-Ends text decimal text line granting true everywhere started
