-- ===== src/EPollPoller.antt =====
-- src/net/epoll_poller.cpp and include/agora/net/epoll_poller.h, and `update` of
-- src/net/channel.cpp: which descriptors the kernel watches, and for what.
--
-- The kernel's epoll set is an argument, an `Epoll`: its state, `epoll_ctl`, and the laws that the
-- manual gives for it. `EventLoop::updateChannel` and `removeChannel` pass the calls on.
pub mod Watched
pub mod Calls
pub mod Masks
pub mod Poll
pub mod Simulated
mod Examples
use agora_im.Shared.{
  ℕ, suc, ◌≡◌, ◌≢◌, Bool, true, false, ◌||◌, Option, none, some, List, [], ◌∷◌, ◌==◌, if◌then◌else◌,
  length, ◌*◌,
}
use agora_im.Channel.{
  Channel, Events, Index, is_new, added, deleted, is_none_event, set_reading, clear_reading,
  set_writing, clear_writing, clear_all,
}

pub data Operation : Type 0 where
  ctl_add ctl_mod ctl_del : Operation

-- Whether the descriptor is watched as the operation expects it.
abbrev pub Expects : Operation → Option Events → Type 0
Expects ctl_add w = w ≡ none
Expects ctl_mod w = (e : Events) × (w ≡ some e)
Expects ctl_del w = (e : Events) × (w ≡ some e)

-- What the operation leaves.
abbrev pub left_by : Operation → Events → Option Events
left_by ctl_add e = some e
left_by ctl_mod e = some e
left_by ctl_del e = none

-- `epoll_ctl` succeeds when the set is as the operation expects it; it changes one descriptor.
pub record Epoll : Type 1 where
  pub State : Type 0
  pub watched : State → ℕ → Option Events
  pub epoll_ctl : Operation → ℕ → Events → State → Bool × State
  pub succeeds :
      (op : Operation) (fd : ℕ) (e : Events) (s : State)
      → Expects op (watched s fd)
      → ((epoll_ctl op fd e s).0 ≡ true) × (watched (epoll_ctl op fd e s).1 fd ≡ left_by op e)
  pub others :
      (op : Operation) (fd : ℕ) (e : Events) (s : State) (other : ℕ)
      → other ≢ fd
      → watched (epoll_ctl op fd e s).1 other ≡ watched s other

module _ (k : Epoll) where
  -- `channels_` holds the channel of a descriptor as its address; `errors` counts the lines logged.
  pub record Poller : Type 0 where
    pub kernel : k.State
    pub channels : ℕ → Option ℕ
    pub errors : ℕ

abbrev pub enter : (ℕ → Option ℕ) → ℕ → Option ℕ → ℕ → Option ℕ
enter m fd address other = if other == fd then address else m other

module _ {k : Epoll} where
  -- `update`: one call of `epoll_ctl`.
  unfoldable pub control : Operation → Channel → Poller k → Poller k
  control op c p =
      let (ok, s) = k.epoll_ctl op c.fd c.events p.kernel in
      record p { kernel = s; errors = if ok then p.errors else suc p.errors }

  -- `updateChannel` of the channel at an address, by the index that it has.
  unfoldable pub update_as : Index → ℕ → Channel → Poller k → Channel × Poller k
  update_as is_new address c p =
      let c' : Channel = record c { index = added } in
      (c', control ctl_add c' (record p { channels = enter p.channels c.fd (some address) }))
  update_as deleted address c p =
      let c' : Channel = record c { index = added } in (c', control ctl_add c' p)
  update_as added address c p =
      if is_none_event c
      then (record c { index = deleted }, control ctl_del c p)
      else (c, control ctl_mod c p)

  unfoldable pub update_channel : ℕ → Channel → Poller k → Channel × Poller k
  update_channel address c p = update_as c.index address c p

  unfoldable pub unwatch : Index → Channel → Poller k → Poller k
  unwatch added c p = control ctl_del c p
  unwatch is_new c p = p
  unwatch deleted c p = p

  unfoldable pub remove_channel : Channel → Poller k → Channel × Poller k
  remove_channel c p =
      let p' = unwatch c.index c p in
      (record c { index = is_new }, record p' { channels = enter p'.channels c.fd none })

-- The public calls of a channel, each of which ends in one call of the poller.
pub data ChannelCall : Type 0 where
  enable_reading disable_reading enable_writing disable_writing disable_all : ChannelCall
  removal : ChannelCall

module _ {k : Epoll} where
  unfoldable pub channel_call : ℕ → ChannelCall → Channel → Poller k → Channel × Poller k
  channel_call address removal c p = remove_channel c p
  channel_call address enable_reading c p = update_channel address (set_reading c) p
  channel_call address disable_reading c p = update_channel address (clear_reading c) p
  channel_call address enable_writing c p = update_channel address (set_writing c) p
  channel_call address disable_writing c p = update_channel address (clear_writing c) p
  channel_call address disable_all c p = update_channel address (clear_all c) p

  unfoldable pub channel_calls : ℕ → List ChannelCall → Channel → Poller k → Channel × Poller k
  channel_calls address [] c p = (c, p)
  channel_calls address (op ∷ ops) c p =
      let (c', p') = channel_call address op c p in channel_calls address ops c' p'
