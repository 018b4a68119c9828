-- ===== src/Channel.antt =====
-- include/agora/net/channel.h and src/net/channel.cpp: a descriptor with the events it waits for.
-- An event mask is the record of its bits, and `|`, `&` and `& ~` act bit by bit. What the owner
-- of a channel does in its callbacks is an argument.
use agora_im.Shared.{ℕ, Bool, true, false, not, ◌&&◌, ◌||◌, Option, none, some, if◌then◌else◌}
use agora_im.Shared.Assertions.{◌>>=◌}

-- EPOLLIN, EPOLLPRI, EPOLLOUT, EPOLLERR and EPOLLHUP.
pub record Events : Type 0 where
  pub input : Bool
  pub priority : Bool
  pub output : Bool
  pub error : Bool
  pub hangup : Bool

abbrev pub bits : (input priority output error hangup : Bool) → Events
bits i p o e h = record { input = i; priority = p; output = o; error = e; hangup = h }

abbrev pub none_event : Events
none_event = bits false false false false false

abbrev pub read_event : Events
read_event = bits true true false false false

abbrev pub write_event : Events
write_event = bits false false true false false

-- `a | b`.
abbrev pub union : Events → Events → Events
union a b =
    bits (a.input || b.input) (a.priority || b.priority) (a.output || b.output) (a.error || b.error)
      (a.hangup || b.hangup)

-- `a & ~ b`.
abbrev pub without : Events → Events → Events
without a b =
    bits (a.input && not b.input) (a.priority && not b.priority) (a.output && not b.output)
      (a.error && not b.error) (a.hangup && not b.hangup)

-- Whether `a & b` is not zero.
abbrev pub meets : Events → Events → Bool
meets a b =
    (a.input && b.input)
    || (a.priority && b.priority)
    || (a.output && b.output)
    || (a.error && b.error)
    || (a.hangup && b.hangup)

-- `Channel::State`, the poller's mark.
pub data Index : Type 0 where
  is_new added deleted : Index

pub record Channel : Type 0 where
  pub fd : ℕ
  pub events : Events
  pub revents : Events
  pub index : Index

unfoldable pub new : ℕ → Channel
new fd = record { fd = fd; events = none_event; revents = none_event; index = is_new }

unfoldable pub is_none_event : Channel → Bool
is_none_event c =
    not
      (c.events.input || c.events.priority || c.events.output || c.events.error || c.events.hangup)

unfoldable pub is_reading : Channel → Bool
is_reading c = c.events.input

unfoldable pub is_writing : Channel → Bool
is_writing c = c.events.output

-- The five setters without the call of `update` that ends them.
unfoldable pub set_reading : Channel → Channel
set_reading c = record c { events = union c.events read_event }

unfoldable pub clear_reading : Channel → Channel
clear_reading c = record c { events = without c.events read_event }

unfoldable pub set_writing : Channel → Channel
set_writing c = record c { events = union c.events write_event }

unfoldable pub clear_writing : Channel → Channel
clear_writing c = record c { events = without c.events write_event }

unfoldable pub clear_all : Channel → Channel
clear_all c = record c { events = none_event }

-- The callbacks of a channel, on the state `S` of their owner; one that is not set is `none`, and
-- one that fails an assertion gives `none`.
pub record Callbacks (S : Type 0) : Type 0 where
  pub read : Option (S → Option S)
  pub write : Option (S → Option S)
  pub close : Option (S → Option S)
  pub error : Option (S → Option S)

module _ {S : Type 0} where
  -- `if (callback) callback()`.
  abbrev pub if_set : Option (S → Option S) → S → Option S
  if_set none s = some s
  if_set (some f) s = f s

  -- The same under a test of the events.
  abbrev pub if_event : Bool → Option (S → Option S) → S → Option S
  if_event b f s = if b then if_set f s else some s

  -- `handleEvent` on the events that the poller set, which no callback changes.
  unfoldable pub handle_event : Callbacks S → Events → S → Option S
  handle_event on revents s = do
    s₁ ← if_event (revents.hangup && not revents.input) on.close s
    s₂ ← if_event revents.error on.error s₁
    s₃ ← if_event (meets revents read_event) on.read s₂
    if_event (meets revents write_event) on.write s₃
