-- ===== src/Sockets/Ends.antt =====
-- How a call of the system ends, and the calls whose failure is the end of the process.
use agora_im.Shared.{ℕ, ◌≡◌, refl, some, List, [], ◌∷◌, ◌++◌, Bytes, codes}
use agora_im.InetAddress.{InetAddress}
use agora_im.Logger.{fatal, Place, line_of}
use agora_im.Logger.Printed.{log_fatal}
use agora_im.Buffer.{Answer, failed, moved}
use agora_im.Sockets.{
  Fd, Syscall, socket_call, bind_call, listen_call, Process, Ended, returns, dies, ◌>>=◌, invoke,
  report, check, carry, fd_of, create_nonblocking_or_die, bind_or_die, listen_or_die,
}

-- The kernel answers the call, made on top of the calls before, with a number.
abbrev pub Grants : (List Syscall → Syscall → Answer ℕ) → List Syscall → Syscall → ℕ → Type 0
Grants kernel before c n = kernel before c ≡ moved n

-- Just this call was made.
abbrev pub Calls : Syscall → Process → Process → Type 0
Calls c p q = q.calls ≡ p.calls ++ c ∷ []

module _ (put_time tid_text strerror : ℕ → Bytes) (at : Place) where
  -- The last line printed is a message of the highest level.
  unfoldable pub IsFatal : Process → Type 0
  IsFatal q =
      (before : List Bytes) × ((msg : Bytes) × (q.logger.printed
          ≡ before ++ line_of put_time tid_text at fatal msg ∷ []))

  -- A process that goes on does so with `P`; one that ends has printed why.
  abbrev pub Ends : {A : Type 0} → (A → Process → Type 0) → Ended A → Type 0
  Ends P (returns a q) = P a q
  Ends P (dies q) = IsFatal q

  pub Ends-then :
      {A B : Type 0} (P : A → Process → Type 0) (Q : B → Process → Type 0) (m : Process → Ended A)
      (f : A → Process → Ended B) (p : Process)
      → Ends P (m p)
      → ((a : A) (q : Process) → P a q → Ends Q (f a q))
      → Ends Q ((m >>= f) p)
  Ends-then {A = A} {B = B} P Q m f p h k = go (m p) h
    where
      go : (e : Ended A) → Ends P e → Ends Q (elim e [ dies q ↦ dies q | returns a q ↦ f a q ])
      go (returns a q) h = k a q h
      go (dies q) h = h

  pub fatal_report :
      (msg : Bytes) (p : Process) (P : Unit → Process → Type 0)
      → Ends P (report put_time tid_text strerror at fatal msg p)
  unfolding report IsFatal
  fatal_report msg p P =
      rw (carry, log_fatal put_time tid_text at msg p.logger) (p.logger.printed, (msg, refl))

  fatal_check :
      (msg : Bytes) (r : Answer ℕ) (p : Process) (P : Unit → Process → Type 0)
      → ((n : ℕ) → r ≡ moved n → P tt p)
      → Ends P (check put_time tid_text strerror at fatal msg r p)
  fatal_check msg (moved n) p P h = h n refl
  fatal_check msg (failed errno) p P h = fatal_report (msg ++ strerror errno) p P

  module _ (kernel : List Syscall → Syscall → Answer ℕ) where
    -- What holds behind a call of the system that was granted.
    abbrev pub Granted : Syscall → Process → Process → Type 0
    Granted c p q = ((n : ℕ) × Grants kernel p.calls c n) × Calls c p q

    created :
        (r : Answer ℕ) (p q : Process)
        → kernel p.calls socket_call ≡ r
        → Calls socket_call p q
        → Ends
            (λ fd q'.
              (n : ℕ) × (fd ≡ some n)
              × Grants kernel p.calls socket_call n
              × Calls socket_call p q')
            ((check put_time tid_text strerror at fatal
                  (codes "Failed to create non-blocking socket: ")
                  r
                >>= λ u. returns (fd_of put_time tid_text strerror at r))
              q)
    created (moved n) p q e c = (n, refl, e, c)
    created (failed errno) p q e c =
        Ends-then (λ u q'. ⊥) _
          (check put_time tid_text strerror at fatal
            (codes "Failed to create non-blocking socket: ") (failed errno))
          _ q (fatal_report _ q _) (λ u q' h. absurd h)

    -- `socket`, `bind` and `listen`: the function goes on only when the kernel granted the call, with
    -- the descriptor that it gave; otherwise, whatever level the logger is set to, the process ends
    -- and the last line printed is a message of the highest level.
    pub or_die-Ends :
        (fd : Fd) (addr : InetAddress) (p : Process)
        → Ends
            (λ fd' q.
              (n : ℕ) × (fd' ≡ some n)
              × Grants kernel p.calls socket_call n
              × Calls socket_call p q)
            (create_nonblocking_or_die put_time tid_text strerror at kernel p)
          × Ends
              (λ u q. Granted (bind_call fd addr) p q)
              (bind_or_die put_time tid_text strerror at kernel fd addr p)
          × Ends
              (λ u q. Granted (listen_call fd) p q)
              (listen_or_die put_time tid_text strerror at kernel fd p)
    unfolding create_nonblocking_or_die bind_or_die listen_or_die invoke
    or_die-Ends fd addr p = (
      created (kernel p.calls socket_call) p _ refl refl,
      fatal_check (codes "Failed to bind socket: ") (kernel p.calls (bind_call fd addr))
          (record p { calls = p.calls ++ bind_call fd addr ∷ [] })
          (λ u q. Granted (bind_call fd addr) p q) (λ n e. ((n, e), refl)),
      fatal_check (codes "Failed to listen on socket: ") (kernel p.calls (listen_call fd))
          (record p { calls = p.calls ++ listen_call fd ∷ [] })
          (λ u q. Granted (listen_call fd) p q) (λ n e. ((n, e), refl)),
    )
