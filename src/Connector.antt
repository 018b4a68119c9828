-- ===== src/Connector.antt =====
-- include/agora/net/connector.h and src/net/connector.cpp: a connection to a server, with retries.
--
-- The state holds the descriptor of the channel, the descriptors that the connector has opened and
-- not yet closed or handed over, the delays of the retries that it scheduled, and how often
-- `resetChannel` waits in the loop's queue. The descriptor that `socket` gives, the answer of
-- `connect` (an `errno`, or `none` for success) and `SO_ERROR` are arguments. A null pointer that is
-- used, or an assertion that fails, gives `none`.
pub mod Owned
pub mod Events
pub mod Backoff
pub mod Handed
mod Examples
use agora_im.Shared.{
  ℕ, suc, ◌+◌, ◌-◌, ◌*◌, ◌≡◌, Bool, true, false, not, ◌||◌, Option, none, some, List, [], ◌∷◌, ltb,
  ◌==◌, if◌then◌else◌,
}
use agora_im.Shared.Assertions.{◌>>=◌}

pub data State : Type 0 where
  disconnected connecting connected : State

abbrev pub is_disconnected : State → Bool
is_disconnected disconnected = true
is_disconnected connecting = false
is_disconnected connected = false

abbrev pub is_connecting : State → Bool
is_connecting disconnected = false
is_connecting connecting = true
is_connecting connected = false

abbrev pub init_retry_delay : ℕ
init_retry_delay = 500

abbrev pub max_retry_delay : ℕ
max_retry_delay = 30000

-- `handed` lists the descriptors given to the callback, and `callback` says whether it is set.
pub record Connector : Type 0 where
  pub connect : Bool
  pub state : State
  pub channel : Option ℕ
  pub retry_delay : ℕ
  pub callback : Bool
  pub open_fds : List ℕ
  pub handed : List ℕ
  pub retries : List ℕ
  pub resets : ℕ

unfoldable pub new : Bool → Connector
new callback = record {
  connect = false;
  state = disconnected;
  channel = none;
  retry_delay = init_retry_delay;
  callback = callback;
  open_fds = [];
  handed = [];
  retries = [];
  resets = 0;
}

-- EINPROGRESS and EINTR.
unfoldable pub is_in_progress : ℕ → Bool
is_in_progress errno = errno == 115 || errno == 4

abbrev pub without : ℕ → List ℕ → List ℕ
without fd [] = []
without fd (x ∷ xs) = let rest = without fd xs in if x == fd then rest else x ∷ rest

abbrev pub close : ℕ → Connector → Connector
close fd c = record c { open_fds = without fd c.open_fds }

-- The callback now owns the descriptor.
abbrev pub hand_over : ℕ → Connector → Connector
hand_over fd c = record c { open_fds = without fd c.open_fds; handed = fd ∷ c.handed }

unfoldable pub backoff : ℕ → ℕ
backoff delay = if ltb max_retry_delay (delay * 2) then max_retry_delay else delay * 2

unfoldable pub retry : Connector → Connector
retry c =
    if c.connect
    then record c {
      state = disconnected;
      retries = c.retry_delay ∷ c.retries;
      retry_delay = backoff c.retry_delay;
    }
    else record c { state = disconnected }

-- `if (connect_) retry()`.
abbrev pub retry_if_wanted : Connector → Connector
retry_if_wanted c = if c.connect then retry c else c

pub start_watching : ℕ → Connector → Option Connector
start_watching fd c = elim c.channel [
  | none ↦ some (record c { state = connecting; channel = some fd })
  | some old ↦ none
]

unfoldable pub connect_to : (fd : ℕ) (answer : Option ℕ) → Connector → Option Connector
connect_to fd none c =
    start_watching fd
      (record c { channel = none; open_fds = fd ∷ c.open_fds; retry_delay = init_retry_delay })
connect_to fd (some errno) c =
    let c' : Connector = record c { channel = none; open_fds = fd ∷ c.open_fds } in
    if is_in_progress errno then start_watching fd c' else some (retry_if_wanted (close fd c'))

unfoldable pub start_in_loop : (fd : ℕ) (answer : Option ℕ) → Connector → Option Connector
start_in_loop fd answer c =
    if not (is_disconnected c.state)
    then some c
    else if c.connect
    then connect_to fd answer c
    else some c

-- `restart`, up to its call of `startInLoop`.
unfoldable pub restart : (fd : ℕ) (answer : Option ℕ) → Connector → Option Connector
restart fd answer c =
    start_in_loop fd answer
      (record c { state = disconnected; retry_delay = init_retry_delay; connect = true })

pub remove_and_reset_channel : Connector → Option (ℕ × Connector)
remove_and_reset_channel c = elim c.channel [
  | none ↦ none
  | some fd ↦ some (fd, record c { resets = suc c.resets })
]

unfoldable pub reset_channel : Connector → Connector
reset_channel c = record c { channel = none; resets = c.resets - 1 }

unfoldable pub stop_in_loop : Connector → Option Connector
stop_in_loop c =
    if is_connecting c.state
    then (do
      (fd, c') ← remove_and_reset_channel c
      some (record (close fd c') { state = disconnected }))
    else some c

-- What `handleWrite` does with the descriptor that is now connected.
pub established : ℕ → Connector → Connector
established fd c =
    let c' : Connector = record c { state = connected; retry_delay = init_retry_delay } in
    if c.connect then (if c.callback then hand_over fd c' else close fd c') else close fd c'

unfoldable pub handle_write : (error : ℕ) → Connector → Option Connector
handle_write error c =
    if is_connecting c.state
    then (do
      (fd, c') ← remove_and_reset_channel c
      some (if error == 0 then established fd c' else retry_if_wanted (close fd c')))
    else some c

unfoldable pub handle_error : Connector → Option Connector
handle_error c =
    if is_connecting c.state
    then (do (fd, c') ← remove_and_reset_channel c; some (retry_if_wanted (close fd c')))
    else some c

-- What the loop runs. `starts` is the queued half of `start`, or a retry that is due; `wants` is what
-- `start` and `stop` set at once.
pub data Event : Type 0 where
  wants : Bool → Event
  starts : (fd : ℕ) → (answer : Option ℕ) → Event
  stops : Event
  writes : (error : ℕ) → Event
  errors : Event
  resets_channel : Event

unfoldable pub step : Event → Connector → Option Connector
step (wants b) c = some (record c { connect = b })
step (starts fd answer) c = start_in_loop fd answer c
step stops c = stop_in_loop c
step (writes error) c = handle_write error c
step errors c = handle_error c
step resets_channel c = some (reset_channel c)
