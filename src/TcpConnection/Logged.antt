-- ===== src/TcpConnection/Logged.antt =====
-- What a connection writes to the log: `stateToString`, the destructor, and `handleError`.
use agora_im.Shared.{ℕ, some, List, [], ◌∷◌, ◌++◌, Bytes, codes, decimal}
use agora_im.Logger.{Place, info, error}
use agora_im.Buffer.{Answer}
use agora_im.Sockets.{
  Fd, Syscall, getsockopt_call, Process, Ended, ◌>>=◌, invoke, report, get_socket_error, destroy,
}
use agora_im.Sockets.Errors.{Returns, Made, error_report}
use agora_im.TcpConnection.{State, disconnected, connecting, connected, disconnecting}

unfoldable pub state_to_string : State → Bytes
state_to_string disconnected = codes "kDisconnected"
state_to_string connecting = codes "kConnecting"
state_to_string connected = codes "kConnected"
state_to_string disconnecting = codes "kDisconnecting"

module _ (put_time tid_text strerror : ℕ → Bytes) (at : Place)
    (kernel : List Syscall → Syscall → Answer ℕ) where
  -- The body of the destructor, and then the member `socket_`.
  unfoldable pub destructor : (name : Bytes) → (fd : ℕ) → State → Process → Ended Unit
  destructor name fd state = do
    _ ← report put_time tid_text strerror at info (
        codes "TcpConnection::~TcpConnection ["
        ++ name
        ++ codes "] at fd="
        ++ decimal fd
        ++ codes " state="
        ++ state_to_string state)
    destroy put_time tid_text strerror at kernel (some fd)

  unfoldable pub handle_error : (name : Bytes) → Fd → Process → Ended Unit
  handle_error name fd = do
    err ← get_socket_error put_time tid_text strerror at kernel fd
    report put_time tid_text strerror at error (
        codes "TcpConnection::handleError ["
        ++ name
        ++ codes "] - SO_ERROR="
        ++ decimal err
        ++ codes " "
        ++ strerror err)

  -- `handleError` asks once for SO_ERROR, prints at most a line and returns, whatever the kernel
  -- answers: it does nothing to the connection.
  pub handle_error-Returns :
      (name : Bytes) (fd : Fd) (p : Process)
      → Returns
          (λ u q. Made put_time tid_text strerror at (getsockopt_call fd) p q)
          (handle_error name fd p)
  unfolding handle_error get_socket_error invoke
  handle_error-Returns name fd p =
      error_report put_time tid_text strerror at _
        (record p { calls = p.calls ++ getsockopt_call fd ∷ [] })
