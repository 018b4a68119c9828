-- ===== src/Acceptor/Accepting.antt =====
-- `accept` of src/net/sockets_ops.cpp: what it does with the answer of the kernel.
use agora_im.Shared.{
  ℕ, ◌≡◌, ◌⊎◌, inl, inr, refl, true, Option, none, some, ◌++◌, if◌then◌else◌, Bool-cases, Bytes,
  codes,
}
use agora_im.InetAddress.{InetAddress, SockAddr, set_sock_addr}
use agora_im.Logger.{Place, fatal}
use agora_im.Buffer.{Answer, failed, moved}
use agora_im.Sockets.{Process, Ended, returns, ◌>>=◌, report}
use agora_im.Sockets.Ends.{Ends, Ends-then, fatal_report}
use agora_im.Acceptor.{is_expected}

-- `addr->setSockAddr` when the pointer is not null.
abbrev pub set_address : SockAddr → Option InetAddress → Option InetAddress
set_address s none = none
set_address s (some a) = some (set_sock_addr s a)

-- What `accept` returns, with the address that it fills.
abbrev pub Filled : Type 0
Filled = Answer ℕ × Option InetAddress

module _ (put_time tid_text strerror : ℕ → Bytes) (at : Place) where
  -- `sockets::accept`, with what `accept4` answers.
  unfoldable pub accept : Answer (ℕ × SockAddr) → Option InetAddress → Process → Ended Filled
  accept (moved (fd, peer)) addr = returns (moved fd, set_address peer addr)
  accept (failed errno) addr = do
    _ ←
        (if is_expected errno
          then returns tt
          else report put_time tid_text strerror at fatal
              (codes "Unexpected error in accept: " ++ strerror errno))
    returns (failed errno, addr)

  -- `accept` goes on with the descriptor and the peer's address, or, at one of the errors that are
  -- expected, without them, the address left as it was; at any other error the process ends,
  -- whatever level the logger is set to.
  pub accept-Ends :
      (answer : Answer (ℕ × SockAddr)) (addr : Option InetAddress) (p : Process)
      → Ends put_time tid_text strerror at
          (λ r q.
            (q ≡ p)
            × (((fd : ℕ) × (peer : SockAddr) × (answer ≡ moved (fd, peer))
                  × (r ≡ (moved fd, set_address peer addr)))
                ⊎ ((errno : ℕ) × (answer ≡ failed errno)
                    × (is_expected errno ≡ true)
                    × (r ≡ (failed errno, addr)))))
          (accept answer addr p)
  unfolding accept
  accept-Ends (moved (fd, peer)) addr p = (refl, inl (fd, peer, refl, refl))
  accept-Ends (failed errno) addr p = elim (Bool-cases (is_expected errno)) [
    | inl y ↦ rw y (refl, inr (errno, refl, y, refl))
    | inr n ↦ rw n (
        Ends-then put_time tid_text strerror at (λ u q. ⊥) _
          (report put_time tid_text strerror at fatal
            (codes "Unexpected error in accept: " ++ strerror errno))
          _ p (fatal_report put_time tid_text strerror at _ p _) (λ u q h. absurd h))
  ]
