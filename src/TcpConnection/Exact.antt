-- ===== src/TcpConnection/Exact.antt =====
-- `send` when no callback for complete writes is set: nothing but its bytes goes on the stream.
use agora_im.Shared.{ℕ, ◌≤◌, ◌<◌, ◌≡◌, ◌∙◌, ap, true, Option, none, some, inl, inr, Bytes, length}
use agora_im.Buffer.{Answer, moved}
use agora_im.EPollPoller.{Epoll}
use agora_im.TcpConnection.{TcpConnection, Callbacks, is_connected, notify, send_in_loop, send}
use agora_im.TcpConnection.Invariant.{IsSound}
use agora_im.TcpConnection.Output.{Fits}
use agora_im.TcpConnection.Sending.{Extends, send_in_loop-Ways}

module _ {k : Epoll} where
  abbrev pub Adds : Bytes → TcpConnection k → Option (TcpConnection k) → Type 0
  Adds bytes c o = (c' : TcpConnection k) × (o ≡ some c') × Extends bytes c c'

  module _ (on : Callbacks k) where
    pub send_in_loop-Adds :
        (write : Bytes → Answer ℕ) (bytes : Bytes) (c : TcpConnection k)
        → on.write_complete ≡ none
        → IsSound c
        → is_connected c.state ≡ true
        → Fits bytes c
        → 0 < length bytes
        → ((n : ℕ) → write bytes ≡ moved n → n ≤ length bytes)
        → Adds bytes c (send_in_loop on write bytes c)
    unfolding notify
    send_in_loop-Adds write bytes c unset s h fits some_byte honest =
        let (c', x, way) = send_in_loop-Ways on write bytes c s h fits some_byte honest in
        elim way [ inl e ↦ (c', e, x) | inr e ↦ (c', e ∙ ap (λ f. notify f c') unset, x) ]

    -- `send` on a connected connection that keeps the invariant, with no callback for complete
    -- writes, puts exactly its bytes at the end of the stream, and leaves the state and the input.
    -- The bytes must fit, there must be one at least, and `write` must not claim more than it was
    -- given.
    pub send-Adds :
        (write : Bytes → Answer ℕ) (bytes : Bytes) (c : TcpConnection k)
        → on.write_complete ≡ none
        → IsSound c
        → is_connected c.state ≡ true
        → Fits bytes c
        → 0 < length bytes
        → ((n : ℕ) → write bytes ≡ moved n → n ≤ length bytes)
        → Adds bytes c (send on write bytes c)
    unfolding send
    send-Adds write bytes c unset s h fits some_byte honest =
        rw h (send_in_loop-Adds write bytes c unset s h fits some_byte honest)
