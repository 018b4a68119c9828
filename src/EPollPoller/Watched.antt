-- ===== src/EPollPoller/Watched.antt =====
-- The kernel watches what the channels ask for.
use agora_im.Shared.{ℕ, ◌≡◌, ◌≢◌, ◌∙◌, refl, Option, none, some, Bool-cases, inl, inr, arith}
use agora_im.Channel.{Channel, Events, Index, is_new, added, deleted, is_none_event}
use agora_im.EPollPoller.{
  enter, Epoll, Poller, Operation, ctl_add, ctl_mod, ctl_del, Expects, left_by, control, update_as,
  update_channel, unwatch, remove_channel,
}

-- What the index says about the descriptor: it is watched just when the channel was added.
abbrev pub Marks : Index → Option Events → Type 0
Marks is_new w = w ≡ none
Marks added w = (e : Events) × (w ≡ some e)
Marks deleted w = w ≡ none

-- The same with the mask that it is watched for.
abbrev pub Watches : Index → Events → Option Events → Type 0
Watches is_new e w = w ≡ none
Watches added e w = w ≡ some e
Watches deleted e w = w ≡ none

pub Watches-Marks : (i : Index) (e : Events) (w : Option Events) → Watches i e w → Marks i w
Watches-Marks is_new e w h = h
Watches-Marks added e w h = (e, h)
Watches-Marks deleted e w h = h

enter_other :
    (m : ℕ → Option ℕ) (fd : ℕ) (x : Option ℕ) (other : ℕ)
    → other ≢ fd
    → enter m fd x other ≡ m other
enter_other m fd x other n = ground arith

module _ {k : Epoll} where
  -- What the kernel watches a channel's descriptor for.
  abbrev pub interest : Channel → Poller k → Option Events
  interest c p = k.watched p.kernel c.fd

  abbrev pub InStep : Channel → Poller k → Type 0
  InStep c p = Marks c.index (interest c p)

  -- From `p` to `q` no system call failed, and only one descriptor was touched.
  pub record Untouched (fd : ℕ) (p q : Poller k) : Type 0 where
    pub errors : q.errors ≡ p.errors
    pub elsewhere :
        (other : ℕ)
        → other ≢ fd
        → (k.watched q.kernel other ≡ k.watched p.kernel other)
          × (q.channels other ≡ p.channels other)

  control_lem :
      (op : Operation) (c : Channel) (p : Poller k)
      → Expects op (interest c p)
      → Untouched c.fd p (control op c p)
        × (interest c (control op c p) ≡ left_by op c.events)
        × ((control op c p).channels ≡ p.channels)
  unfolding control
  control_lem op c p h =
      let (ok, left) = k.succeeds op c.fd c.events p.kernel h in
      (
        record {
          errors = rw ok;
          elsewhere = λ other n. (k.others op c.fd c.events p.kernel other n, refl);
        },
        left,
        refl,
      )

  -- After a call of the poller: the descriptor is watched just when the channel is added, and then
  -- for just the events in its mask.
  abbrev pub Current : Channel → Poller k → Type 0
  Current c p = Watches c.index c.events (interest c p)

  -- What a call leaves: the channel and the kernel agree, nothing failed, and no other descriptor
  -- is touched.
  pub record Kept (c : Channel) (p : Poller k) (r : Channel × Poller k) : Type 0 where
    pub same_fd : r.0.fd ≡ c.fd
    pub current : Current r.0 r.1
    pub untouched : Untouched c.fd p r.1

  entered :
      (fd : ℕ) (x : Option ℕ) (p q : Poller k)
      → Untouched fd (record p { channels = enter p.channels fd x }) q
      → Untouched fd p q
  entered fd x p q u = record {
    errors = u.errors;
    elsewhere = λ other n.
        ((u.elsewhere other n).0, (u.elsewhere other n).1 ∙ enter_other p.channels fd x other n);
  }

  update_as_lem :
      (i : Index) (address : ℕ) (c : Channel) (p : Poller k)
      → c.index ≡ i
      → Marks i (interest c p)
      → Kept c p (update_as i address c p)
  unfolding update_as control
  update_as_lem is_new address c p e m =
      let p' : Poller k = record p { channels = enter p.channels c.fd (some address) } in
      let (u, w, s) = control_lem ctl_add (record c { index = added }) p' m in
      record {
        same_fd = refl;
        current = w;
        untouched =
            entered c.fd (some address) p (control ctl_add (record c { index = added }) p') u;
      }
  update_as_lem deleted address c p e m =
      let (u, w, s) = control_lem ctl_add (record c { index = added }) p m in
      record { same_fd = refl; current = w; untouched = u }
  update_as_lem added address c p e m = elim (Bool-cases (is_none_event c)) [
    | inl y ↦
        let (u, w, s) = control_lem ctl_del c p m in
        rw y (record { same_fd = refl; current = w; untouched = u })
    | inr n ↦
        let (u, w, s) = control_lem ctl_mod c p m in
        rw n (record { same_fd = refl; current = rw e w; untouched = u })
  ]

  pub update_channel_lem :
      (address : ℕ) (c : Channel) (p : Poller k)
      → Marks c.index (interest c p)
      → Kept c p (update_channel address c p)
  unfolding update_channel
  update_channel_lem address c p m = update_as_lem c.index address c p refl m

  unwatch_lem :
      (i : Index) (c : Channel) (p : Poller k)
      → Marks i (interest c p)
      → Untouched c.fd p (unwatch i c p) × (interest c (unwatch i c p) ≡ none)
  unfolding unwatch
  unwatch_lem is_new c p m = (record { errors = refl; elsewhere = λ other n. (refl, refl) }, m)
  unwatch_lem deleted c p m = (record { errors = refl; elsewhere = λ other n. (refl, refl) }, m)
  unwatch_lem added c p m = let (u, w, s) = control_lem ctl_del c p m in (u, w)

  pub remove_channel_lem :
      (c : Channel) (p : Poller k) → Marks c.index (interest c p) → Kept c p (remove_channel c p)
  unfolding remove_channel
  remove_channel_lem c p m =
      let (u, w) = unwatch_lem c.index c p m in
      record {
        same_fd = refl;
        current = w;
        untouched = record {
          errors = u.errors;
          elsewhere = λ other n. (
            (u.elsewhere other n).0,
            enter_other ((unwatch c.index c p).channels) c.fd none other n
                ∙ (u.elsewhere other n).1,
          );
        };
      }
