-- ===== src/EPollPoller/Masks.antt =====
-- What a call leaves in a channel's mask.
use agora_im.Shared.{ℕ, ◌≡◌, ◌∙◌, ap, refl, Bool, true, false, ◌||◌, ◌&&◌, inl, inr, Bool-cases}
use agora_im.Channel.{
  Channel, Events, Index, is_new, added, deleted, is_none_event, is_writing, set_reading,
  clear_reading, set_writing, clear_writing, clear_all,
}
use agora_im.EPollPoller.{
  Epoll, Poller, update_as, update_channel, remove_channel, ChannelCall, channel_call, removal,
  enable_reading, disable_reading, enable_writing, disable_writing, disable_all,
}

-- Whether a channel waits to write after a call.
abbrev pub writes_after : ChannelCall → Bool → Bool
writes_after enable_reading w = w
writes_after disable_reading w = w
writes_after enable_writing w = true
writes_after disable_writing w = false
writes_after disable_all w = false
writes_after removal w = w

or_false : (b : Bool) → (b || false) ≡ b
or_false true = refl
or_false false = refl

or_true : (b : Bool) → (b || true) ≡ true
or_true true = refl
or_true false = refl

and_true : (b : Bool) → (b && true) ≡ b
and_true true = refl
and_true false = refl

and_false : (b : Bool) → (b && false) ≡ false
and_false true = refl
and_false false = refl

module _ {k : Epoll} where
  events-update_as :
      (i : Index) (address : ℕ) (c : Channel) (p : Poller k)
      → (update_as i address c p).0.events ≡ c.events
  unfolding update_as
  events-update_as is_new address c p = refl
  events-update_as deleted address c p = refl
  events-update_as added address c p = elim (Bool-cases (is_none_event c)) [
    | inl y ↦ rw y
    | inr n ↦ rw n
  ]

  output-update_channel :
      (address : ℕ) (c : Channel) (p : Poller k)
      → is_writing (update_channel address c p).0 ≡ c.events.output
  unfolding update_channel is_writing
  output-update_channel address c p =
      ap (λ (e : Events). e.output) (events-update_as c.index address c p)

  pub is_writing-channel_call :
      (address : ℕ) (op : ChannelCall) (c : Channel) (p : Poller k)
      → is_writing (channel_call address op c p).0 ≡ writes_after op (is_writing c)
  unfolding channel_call set_reading clear_reading set_writing clear_writing clear_all is_writing
      remove_channel
  is_writing-channel_call address removal c p = refl
  is_writing-channel_call address enable_reading c p =
      output-update_channel address _ p ∙ or_false c.events.output
  is_writing-channel_call address disable_reading c p =
      output-update_channel address _ p ∙ and_true c.events.output
  is_writing-channel_call address enable_writing c p =
      output-update_channel address _ p ∙ or_true c.events.output
  is_writing-channel_call address disable_writing c p =
      output-update_channel address _ p ∙ and_false c.events.output
  is_writing-channel_call address disable_all c p = output-update_channel address _ p
