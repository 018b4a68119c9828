-- ===== src/TcpConnection.antt =====
-- include/agora/net/tcp_connection.h and src/net/tcp_connection.cpp: one connection.
--
-- The state holds the channel and the poller that watches it, the two buffers, the bytes that the
-- kernel has taken from `write`, and whether the write side was shut down. What the calls `readv`
-- and `write` do is an argument. A callback is any function on the state that may fail an assertion:
-- `none` is a failed assertion, here as in the handlers. `handleError` only writes to the log, as
-- TcpConnection.Logged has it.
pub mod Invariant
pub mod Within
pub mod Output
pub mod Sending
pub mod Exact
pub mod Closing
pub mod Reading
pub mod Drained
pub mod Finishes
pub mod Dispatch
pub mod Life
pub mod Logged
mod Examples
use agora_im.Shared.{
  ℕ, ◌+◌, ◌≡◌, Bool, true, false, not, ◌&&◌, Option, none, some, List, [], ◌∷◌, ◌++◌, length, take,
  drop, sub_size, ltb, ◌==◌, if◌then◌else◌, Bytes,
}
use agora_im.Shared.Assertions.{◌>>=◌}
use agora_im.Buffer.{
  Buffer, Answer, failed, moved, contents, readable_bytes, append, retrieve, retrieve_all, read_fd,
  write_fd,
}
use agora_im.Channel.{Channel, Events, is_writing, handle_event}
use agora_im.Channel
use agora_im.EPollPoller.{
  Epoll, Poller, ChannelCall, channel_call, enable_reading, enable_writing, disable_writing,
  disable_all, removal,
}

pub data State : Type 0 where
  disconnected connecting connected disconnecting : State

abbrev pub is_connected : State → Bool
is_connected disconnected = false
is_connected connecting = false
is_connected connected = true
is_connected disconnecting = false

abbrev pub is_disconnected : State → Bool
is_disconnected disconnected = true
is_disconnected connecting = false
is_disconnected connected = false
is_disconnected disconnecting = false

abbrev pub is_connecting : State → Bool
is_connecting disconnected = false
is_connecting connecting = true
is_connecting connected = false
is_connecting disconnecting = false

-- Connected, or waiting for the output to drain.
abbrev pub is_live : State → Bool
is_live disconnected = false
is_live connecting = false
is_live connected = true
is_live disconnecting = true

abbrev pub is_disconnecting : State → Bool
is_disconnecting disconnected = false
is_disconnecting connecting = false
is_disconnecting connected = false
is_disconnecting disconnecting = true

module _ (k : Epoll) where
  pub record TcpConnection : Type 0 where
    pub state : State
    pub address : ℕ
    pub channel : Channel
    pub poller : Poller k
    pub input : Buffer
    pub output : Buffer
    pub taken : Bytes
    pub shut : Bool

  abbrev pub Callback : Type 0
  Callback = Option (TcpConnection → Option TcpConnection)

  pub record Callbacks : Type 0 where
    pub connection : Callback
    pub message : Callback
    pub write_complete : Callback
    pub close : Callback

module _ {k : Epoll} where
  -- `if (callback_) callback_(shared_from_this())`.
  unfoldable pub notify : Callback k → TcpConnection k → Option (TcpConnection k)
  notify none c = some c
  notify (some f) c = f c

  abbrev pub is_set : Callback k → Bool
  is_set none = false
  is_set (some f) = true

  -- A call of the connection's channel.
  abbrev pub ask : ChannelCall → TcpConnection k → TcpConnection k
  ask op c = record c {
    channel = (channel_call c.address op c.channel c.poller).0;
    poller = (channel_call c.address op c.channel c.poller).1;
  }

  -- `outputBuffer_.append`.
  abbrev pub queue : Bytes → TcpConnection k → TcpConnection k
  queue bytes c = record c { output = append c.output bytes }

  unfoldable pub shutdown_in_loop : TcpConnection k → TcpConnection k
  shutdown_in_loop c = if is_writing c.channel then c else record c { shut = true }

  unfoldable pub shutdown : TcpConnection k → TcpConnection k
  shutdown c =
      if is_connected c.state then shutdown_in_loop (record c { state = disconnecting }) else c

module _ {k : Epoll} (on : Callbacks k) where
  unfoldable pub connect_established : TcpConnection k → Option (TcpConnection k)
  connect_established c =
      if is_connecting c.state
      then notify on.connection (ask enable_reading (record c { state = connected }))
      else none

  unfoldable pub connect_destroyed : TcpConnection k → Option (TcpConnection k)
  connect_destroyed c = do
    c' ←
        (if is_connected c.state
          then notify on.connection (ask disable_all (record c { state = disconnected }))
          else some c)
    some (ask removal c')

  -- What `sendInLoop` does when the kernel took `n` bytes.
  unfoldable pub wrote : ℕ → Bytes → TcpConnection k → Option (TcpConnection k)
  wrote n bytes c =
      let remaining = sub_size (length bytes) n in
      let c' : TcpConnection k = record c { taken = c.taken ++ take n bytes } in
      if remaining == 0 && is_set on.write_complete
      then notify on.write_complete c'
      else if ltb 0 remaining
      then some (ask enable_writing (queue (drop n bytes) c'))
      else some c'

  -- What `sendInLoop` does with the answer of `write`.
  unfoldable pub after_send : Answer ℕ → Bytes → TcpConnection k → Option (TcpConnection k)
  after_send (failed errno) bytes c = some (ask enable_writing (queue bytes c))
  after_send (moved n) bytes c = wrote n bytes c

  unfoldable pub send_in_loop :
      (write : Bytes → Answer ℕ) → Bytes → TcpConnection k → Option (TcpConnection k)
  send_in_loop write bytes c =
      if is_disconnected c.state
      then some c
      else if not (is_writing c.channel) && readable_bytes c.output == 0
      then after_send (write bytes) bytes c
      else some (queue bytes c)

  unfoldable pub send :
      (write : Bytes → Answer ℕ) → Bytes → TcpConnection k → Option (TcpConnection k)
  send write bytes c = if is_connected c.state then send_in_loop write bytes c else some c

  -- The overload for a buffer, which it empties.
  unfoldable pub send_buffer :
      (write : Bytes → Answer ℕ) → Buffer → TcpConnection k → Option (TcpConnection k × Buffer)
  send_buffer write b c =
      if is_connected c.state
      then (do c' ← send_in_loop write (contents b) c; some (c', retrieve_all b))
      else some (c, b)

  unfoldable pub handle_close : TcpConnection k → Option (TcpConnection k)
  handle_close c =
      if is_live c.state
      then (do
        c' ← notify on.connection (ask disable_all (record c { state = disconnected }))
        notify on.close c')
      else none

  unfoldable pub force_close : TcpConnection k → Option (TcpConnection k)
  force_close c =
      if is_live c.state then handle_close (record c { state = disconnecting }) else some c

  -- What `handleRead` does with the answer of `readFd`.
  unfoldable pub after_read : Answer ℕ → TcpConnection k → Option (TcpConnection k)
  after_read (failed errno) c = some c
  after_read (moved n) c = if ltb 0 n then notify on.message c else handle_close c

  unfoldable pub handle_read :
      (readv : ℕ → Answer Bytes) → TcpConnection k → Option (TcpConnection k)
  handle_read readv c = let (n, b) = read_fd readv c.input in after_read n (record c { input = b })

  -- What `handleWrite` does when the kernel took `n` bytes.
  unfoldable pub after_write : ℕ → TcpConnection k → Option (TcpConnection k)
  after_write n c =
      let c' : TcpConnection k = record c {
        taken = c.taken ++ take n (contents c.output);
        output = retrieve c.output n;
      } in
      if readable_bytes c'.output == 0
      then (do
        c'' ← notify on.write_complete (ask disable_writing c')
        some (if is_disconnecting c''.state then shutdown_in_loop c'' else c''))
      else some c'

  -- What `handleWrite` does with the answer of `writeFd`.
  pub after_write_fd : Answer ℕ → TcpConnection k → Option (TcpConnection k)
  after_write_fd (failed errno) c = some c
  after_write_fd (moved n) c = if ltb 0 n then after_write n c else some c

  unfoldable pub handle_write :
      (write : Bytes → Answer ℕ) → TcpConnection k → Option (TcpConnection k)
  handle_write write c =
      if is_writing c.channel then after_write_fd (write_fd write c.output) c else some c

  -- The channel's callbacks, as the constructor sets them.
  abbrev pub channel_callbacks :
      (readv : ℕ → Answer Bytes) → (write : Bytes → Answer ℕ) → Channel.Callbacks (TcpConnection k)
  channel_callbacks readv write = record {
    read = some (handle_read readv);
    write = some (handle_write write);
    close = some handle_close;
    error = some (λ c. some c);
  }

  -- The poller found these events on the connection's descriptor.
  abbrev pub handle_events :
      (readv : ℕ → Answer Bytes)
      → (write : Bytes → Answer ℕ) → Events
      → TcpConnection k
      → Option (TcpConnection k)
  handle_events readv write revents c = handle_event (channel_callbacks readv write) revents c
