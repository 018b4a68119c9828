-- ===== src/Acceptor/Burst.antt =====
-- A burst of connections.
use agora_im.Shared.{
  ℕ, ◌≡◌, refl, true, false, Option, none, some, List, [], ◌∷◌, ◌++◌, append-nil, append_assoc,
  Option-cases, inl, inr,
}
use agora_im.Shared.Assertions.{◌>>=◌}
use agora_im.Acceptor.{Accepted, connection, failed, is_expected, Acceptor, hand_over, handle_read}

-- The answers for these connections, and then for no more.
unfoldable pub burst : List (ℕ × ℕ) → List Accepted → List Accepted
burst [] rest = rest
burst ((fd, peer) ∷ cs) rest = connection fd peer ∷ burst cs rest

abbrev pub fds : List (ℕ × ℕ) → List ℕ
fds [] = []
fds ((fd, peer) ∷ cs) = fd ∷ fds cs

module _ {S : Type 0} where
  -- The callback on each connection in turn.
  unfoldable pub each : (ℕ → ℕ → S → Option S) → List (ℕ × ℕ) → S → Option S
  each f [] s = some s
  each f ((fd, peer) ∷ cs) s = do s' ← f fd peer s; each f cs s'

  -- What `handleRead` comes to when no callback is set.
  all_closed :
      (a : Acceptor S) (cs : List (ℕ × ℕ)) (errno : ℕ) (rest : List Accepted) (s : S)
      (closed : List ℕ)
      → a.callback ≡ none
      → is_expected errno ≡ true
      → handle_read a (burst cs (failed errno ∷ rest)) (s, closed)
        ≡ some ((s, closed ++ fds cs), rest)
  unfolding handle_read hand_over burst
  all_closed a [] errno rest s closed h e = rw (e, append-nil closed) refl
  all_closed a ((fd, peer) ∷ cs) errno rest s closed h e =
      rw
        (
          h,
          all_closed a cs errno rest s (closed ++ fd ∷ []) h e,
          append_assoc closed (fd ∷ []) (fds cs),
        )
        refl

  all_handed :
      (a : Acceptor S) (f : ℕ → ℕ → S → Option S) (cs : List (ℕ × ℕ)) (errno : ℕ)
      (rest : List Accepted) (s : S) (closed : List ℕ)
      → a.callback ≡ some f
      → is_expected errno ≡ true
      → handle_read a (burst cs (failed errno ∷ rest)) (s, closed)
        ≡ (each f cs s >>= λ s'. some ((s', closed), rest))
  unfolding handle_read hand_over burst each
  all_handed a f [] errno rest s closed h e = rw e refl
  all_handed a f ((fd, peer) ∷ cs) errno rest s closed h e = elim (Option-cases (f fd peer s)) [
    | inl n ↦ rw (h, n) refl
    | inr (s', n) ↦ rw (h, n, all_handed a f cs errno rest s' closed h e) refl
  ]

  aborts :
      (a : Acceptor S) (cs : List (ℕ × ℕ)) (errno : ℕ) (rest : List Accepted) (s : S × List ℕ)
      → is_expected errno ≡ false
      → handle_read a (burst cs (failed errno ∷ rest)) s ≡ none
  unfolding handle_read burst
  aborts a [] errno rest s e = rw e refl
  aborts a ((fd, peer) ∷ cs) errno rest s e = elim (Option-cases (hand_over a.callback fd peer s)) [
    | inl n ↦ rw n refl
    | inr (s', n) ↦ rw (n, aborts a cs errno rest s' e) refl
  ]

  -- `handleRead` at a burst of connections that ends in an expected error takes them all and leaves
  -- the answers behind the error: a callback gets each connection once, in order, and nothing is closed;
  -- without a callback each descriptor is closed once, in order. At any other error it aborts, after
  -- the same calls.
  pub handle_read-burst :
      (a : Acceptor S) (cs : List (ℕ × ℕ)) (errno : ℕ) (rest : List Accepted) (s : S)
      (closed : List ℕ)
      → (is_expected errno ≡ true
          → (a.callback ≡ none
              → handle_read a (burst cs (failed errno ∷ rest)) (s, closed)
                ≡ some ((s, closed ++ fds cs), rest))
            × ((f : ℕ → ℕ → S → Option S)
                → a.callback ≡ some f
                → handle_read a (burst cs (failed errno ∷ rest)) (s, closed)
                  ≡ (each f cs s >>= λ s'. some ((s', closed), rest))))
        × (is_expected errno ≡ false
            → handle_read a (burst cs (failed errno ∷ rest)) (s, closed) ≡ none)
  handle_read-burst a cs errno rest s closed = (
    (λ e. (
      (λ h. all_closed a cs errno rest s closed h e),
      λ f h. all_handed a f cs errno rest s closed h e,
    )),
    λ e. aborts a cs errno rest (s, closed) e,
  )
