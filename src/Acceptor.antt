-- ===== src/Acceptor.antt =====
-- include/agora/net/acceptor.h, src/net/acceptor.cpp, and `accept` of src/net/sockets_ops.cpp: the
-- accepting of connections.
--
-- What `accept4` answers is an argument, one answer for each call; once they are used up, each call
-- answers EAGAIN. A state `S` stands for what the callback works on. `none` is a failed assertion, or
-- the abort of a fatal log line.
pub mod Burst
pub mod Opening
pub mod Accepting
mod Examples
use agora_im.Shared.{
  ℕ, zero, suc, ◌+◌, ◌-◌, ◌*◌, ◌/◌, ◌%◌, ◌≤◌, ◌<◌, ◌≡◌, ◌≢◌, ◌∙◌, ◌⊎◌, ◌↔◌, ap, refl, sym, Bool,
  true, false, not, ◌&&◌, ◌||◌, Option, none, some, List, [], ◌∷◌, ◌++◌, append-nil, append_assoc,
  ltb, leb, ◌==◌, if◌then◌else◌, Bool-cases, Option-cases, inl, inr, arith, Bytes, codes, length,
  take, drop, length-append, eq_bytes, eq_bytes_iff, Free, ==_iff,
}
use agora_im.Shared.Assertions.{◌>>=◌}

-- What one call of `accept4` gives: a descriptor and the peer's address, or an `errno`.
pub data Accepted : Type 0 where
  connection : (fd peer : ℕ) → Accepted
  failed : (errno : ℕ) → Accepted

-- EAGAIN, ECONNABORTED, EINTR, EPROTO, EPERM and EMFILE.
unfoldable pub is_expected : ℕ → Bool
is_expected errno =
    errno == 11 || errno == 103 || errno == 4 || errno == 71 || errno == 1 || errno == 24

module _ (S : Type 0) where
  pub record Acceptor : Type 0 where
    pub listening : Bool
    pub reading : Bool
    pub callback : Option (ℕ → ℕ → S → Option S)

module _ {S : Type 0} where
  -- `listen`: the socket listens, and its channel asks for read events.
  unfoldable pub listen : Acceptor S → Option (Acceptor S)
  listen a = if a.listening then none else some (record a { listening = true; reading = true })

  -- What is done with a new connection; without a callback its descriptor is closed.
  unfoldable pub hand_over :
      Option (ℕ → ℕ → S → Option S) → (fd peer : ℕ) → S × List ℕ → Option (S × List ℕ)
  hand_over none fd peer (s, closed) = some (s, closed ++ fd ∷ [])
  hand_over (some f) fd peer (s, closed) = do s' ← f fd peer s; some (s', closed)

  -- `handleRead`, with the answers that are left and the descriptors that were closed.
  unfoldable pub handle_read :
      Acceptor S → List Accepted → S × List ℕ → Option ((S × List ℕ) × List Accepted)
  handle_read a [] s = some (s, [])
  handle_read a (failed errno ∷ answers) s = if is_expected errno then some (s, answers) else none
  handle_read a (connection fd peer ∷ answers) s = do
    s' ← hand_over a.callback fd peer s
    handle_read a answers s'
