-- ===== src/Sockets/Socket.antt =====
-- include/agora/net/socket.h and src/net/socket.cpp: a descriptor with its calls.
use agora_im.Shared.{ℕ, Bool, List, Bytes}
use agora_im.InetAddress.{InetAddress}
use agora_im.Logger.{Place}
use agora_im.Buffer.{Answer}
use agora_im.Sockets.{
  Fd, Syscall, Process, Ended, bind_or_die, listen_or_die, shutdown_write, set_reuse_addr,
  set_reuse_port, set_keep_alive,
}

pub record Socket : Type 0 where
  pub sockfd : Fd

module _ (put_time tid_text strerror : ℕ → Bytes) (at : Place)
    (kernel : List Syscall → Syscall → Answer ℕ) where
  unfoldable pub bind_address : Socket → InetAddress → Process → Ended Unit
  bind_address s addr = bind_or_die put_time tid_text strerror at kernel s.sockfd addr

  unfoldable pub listen : Socket → Process → Ended Unit
  listen s = listen_or_die put_time tid_text strerror at kernel s.sockfd

  unfoldable pub shutdown : Socket → Process → Ended Unit
  shutdown s = shutdown_write put_time tid_text strerror at kernel s.sockfd

  unfoldable pub reuse_addr : Socket → Bool → Process → Ended Unit
  reuse_addr s on = set_reuse_addr put_time tid_text strerror at kernel s.sockfd on

  unfoldable pub reuse_port : Socket → Bool → Process → Ended Unit
  reuse_port s on = set_reuse_port put_time tid_text strerror at kernel s.sockfd on

  unfoldable pub keep_alive : Socket → Bool → Process → Ended Unit
  keep_alive s on = set_keep_alive put_time tid_text strerror at kernel s.sockfd on
