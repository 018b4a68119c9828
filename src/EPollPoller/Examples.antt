-- ===== src/EPollPoller/Examples.antt =====
-- A channel on a simulated epoll set.
use agora_im.Shared.{refl, none, List, [], ◌∷◌}
use agora_im.Shared.{ℕ, ◌≡◌, ◌<◌, arith, length, Free, true, false}
use agora_im.Buffer.{moved}
use agora_im.EPollPoller.Poll.{Channels, poll, grown, addresses, Told, poll-moved}
use agora_im.Channel.{new, Events, bits}
use agora_im.EPollPoller.{
  Poller, ChannelCall, channel_calls, removal, enable_reading, enable_writing, disable_writing,
  disable_all,
}
use agora_im.EPollPoller.Watched.{Kept}
use agora_im.EPollPoller.Calls.{channel_calls-Kept}
use agora_im.EPollPoller.Simulated.{epoll}

-- Nothing is watched yet.
abbrev idle : Poller epoll
idle = record { kernel = λ fd. none; channels = λ fd. none; errors = 0 }

-- A connection's life: both directions, then one, then none, then gone.
abbrev life : List ChannelCall
life = enable_reading ∷ enable_writing ∷ disable_writing ∷ disable_all ∷ removal ∷ []

channel_calls-Kept_example : Kept {k = epoll} (new 7) idle (channel_calls 64 life (new 7) idle)
unfolding new
channel_calls-Kept_example = channel_calls-Kept {k = epoll} 64 life (new 7) idle refl

-- Two channels are ready, and the list of events is full.
abbrev input_only : Events
input_only = bits true false false false false

abbrev hung_up : Events
hung_up = bits false false false false true

abbrev ready : List (ℕ × Events)
ready = (64, input_only) ∷ (128, hung_up) ∷ []

abbrev channels : Channels
channels a = new a

poll-moved_example :
    ((poll (moved ready) 2 (channels, [])).1.1 ≡ addresses ready)
    × Told ready channels (poll (moved ready) 2 (channels, [])).1.0
    × ((b : ℕ)
        → Free b (addresses ready)
        → (poll (moved ready) 2 (channels, [])).1.0 b ≡ channels b)
    × (length ready < (poll (moved ready) 2 (channels, [])).0)
poll-moved_example =
    poll-moved ready 2 channels (omega arith) (omega arith) (omega arith) (omega arith)

poll_grows : (poll (moved ready) 2 (channels, [])).0 ≡ 4
unfolding poll grown
poll_grows = refl
