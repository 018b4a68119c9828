-- ===== src/EPollPoller/Calls.antt =====
-- Calls of a channel, in any order.
use agora_im.EPollPoller.{remove_channel}
use agora_im.Shared.{subst, ◌≡◌, none, ℕ, ◌≢◌, ◌∙◌, refl, List, [], ◌∷◌}
use agora_im.Channel.{
  Channel, Events, set_reading, clear_reading, set_writing, clear_writing, clear_all,
}
use agora_im.EPollPoller.{
  Epoll, Poller, update_channel, ChannelCall, channel_call, channel_calls, removal, enable_reading,
  disable_reading, enable_writing, disable_writing, disable_all,
}
use agora_im.EPollPoller.Watched.{
  Watches-Marks, interest, Current, Kept, update_channel_lem, remove_channel_lem,
}

module _ {k : Epoll} where
  masked :
      (address : ℕ) (e : Events) (c : Channel) (p : Poller k)
      → Current c p
      → Kept c p (update_channel address (record c { events = e }) p)
  masked address e c p h =
      let m = Watches-Marks c.index c.events (interest c p) h in
      let r = update_channel_lem address (record c { events = e }) p m in
      record { same_fd = r.same_fd; current = r.current; untouched = r.untouched }

  pub channel_call_lem :
      (address : ℕ) (op : ChannelCall) (c : Channel) (p : Poller k)
      → Current c p
      → Kept c p (channel_call address op c p)
  unfolding channel_call set_reading clear_reading set_writing clear_writing clear_all
  channel_call_lem address removal c p h =
      remove_channel_lem c p (Watches-Marks c.index c.events (interest c p) h)
  channel_call_lem address enable_reading c p h = masked address _ c p h
  channel_call_lem address disable_reading c p h = masked address _ c p h
  channel_call_lem address enable_writing c p h = masked address _ c p h
  channel_call_lem address disable_writing c p h = masked address _ c p h
  channel_call_lem address disable_all c p h = masked address _ c p h

  Kept-trans :
      (c : Channel) (p : Poller k) (r s : Channel × Poller k)
      → Kept c p r
      → Kept r.0 r.1 s
      → Kept c p s
  Kept-trans c p r s x y = record {
    same_fd = y.same_fd ∙ x.same_fd;
    current = y.current;
    untouched = record {
      errors = y.untouched.errors ∙ x.untouched.errors;
      elsewhere = λ other n.
          let n' : other ≢ r.0.fd = rw x.same_fd n in
          (
            (y.untouched.elsewhere other n').0 ∙ (x.untouched.elsewhere other n).0,
            (y.untouched.elsewhere other n').1 ∙ (x.untouched.elsewhere other n).1,
          );
    };
  }

  -- After any sequence of calls on a channel that starts in step with the kernel, no `epoll_ctl`
  -- has failed, and the kernel watches the descriptor just when the channel's index is `kAdded`,
  -- for the events in its mask. What is watched for other descriptors, and their entries in the
  -- poller's map, are as before.
  pub channel_calls-Kept :
      (address : ℕ) (ops : List ChannelCall) (c : Channel) (p : Poller k)
      → Current c p
      → Kept c p (channel_calls address ops c p)
  unfolding channel_calls
  channel_calls-Kept address [] c p h = record {
    same_fd = refl;
    current = h;
    untouched = record { errors = refl; elsewhere = λ other n. (refl, refl) };
  }
  channel_calls-Kept address (op ∷ ops) c p h =
      let one = channel_call_lem address op c p h in
      let r = channel_call address op c p in
      Kept-trans c p r (channel_calls address ops r.0 r.1) one
        (channel_calls-Kept address ops r.0 r.1 one.current)

  -- A channel that is disabled and removed is not watched any more.
  pub unwatched :
      (address : ℕ) (c : Channel) (p : Poller k)
      → Current c p
      → interest c (channel_calls address (disable_all ∷ removal ∷ []) c p).1 ≡ none
  unfolding channel_calls channel_call remove_channel
  unwatched address c p h =
      let r = channel_calls address (disable_all ∷ removal ∷ []) c p in
      let kept = channel_calls-Kept address (disable_all ∷ removal ∷ []) c p h in
      subst (λ fd. k.watched r.1.kernel fd ≡ none) kept.same_fd kept.current
