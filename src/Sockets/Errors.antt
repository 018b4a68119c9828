-- ===== src/Sockets/Errors.antt =====
-- The calls of the system whose failure is only logged, and `SO_ERROR`.
use agora_im.Shared.{
  arith, ◌≤◌, length, leb, if◌then◌else◌, true, false, ℕ, ◌≡◌, refl, ap, sym, Bool, none, some,
  List, [], ◌∷◌, ◌++◌, append-nil, Bytes, codes,
}
use agora_im.Logger.{LogLevel, error, Place, rank, line_of}
use agora_im.Logger.Printed.{log_mild}
use agora_im.Buffer.{Answer, failed, moved}
use agora_im.Sockets.{
  Fd, Syscall, so_reuseaddr, so_reuseport, so_keepalive, close_call, shutdown_call, setsockopt_call,
  Process, Ended, returns, dies, invoke, report, check, carry, close, shutdown_write,
  set_reuse_addr, set_reuse_port, set_keep_alive, destroy,
}
use agora_im.Sockets.Ends.{Calls}

-- The process goes on, with `P`.
abbrev pub Returns : {A : Type 0} → (A → Process → Type 0) → Ended A → Type 0
Returns P (returns a q) = P a q
Returns P (dies q) = ⊥

pub Returns-map :
    {A : Type 0} (P Q : A → Process → Type 0) (e : Ended A)
    → ((a : A) (q : Process) → P a q → Q a q)
    → Returns P e
    → Returns Q e
Returns-map P Q (returns a q) f h = f a q h
Returns-map P Q (dies q) f h = h

-- At most one line is printed behind those of before.
abbrev pub AtMostOneLine : Process → Process → Type 0
AtMostOneLine p q =
    (q.logger.level ≡ p.logger.level)
    × ((lines : List Bytes) × (q.logger.printed ≡ p.logger.printed ++ lines) × (length lines ≤ 1))

module _ (put_time tid_text strerror : ℕ → Bytes) (at : Place) where
  pub error_report :
      (msg : Bytes) (p : Process)
      → Returns
          (λ u q. (q.calls ≡ p.calls) × AtMostOneLine p q)
          (report put_time tid_text strerror at error msg p)
  unfolding report
  error_report msg p =
      rw (carry, log_mild put_time tid_text at error msg p.logger refl)
        (refl, (refl, (shown, refl, one_at_most (leb (rank p.logger.level) (rank error)))))
    where
      line : Bytes
      line = line_of put_time tid_text at error msg

      shown : List Bytes
      shown = if leb (rank p.logger.level) (rank error) then line ∷ [] else []

      one_at_most : (b : Bool) → length (if b then line ∷ [] else []) ≤ 1
      one_at_most true = omega arith
      one_at_most false = omega arith

  error_check :
      (msg : Bytes) (r : Answer ℕ) (p : Process)
      → Returns
          (λ u q. (q.calls ≡ p.calls) × AtMostOneLine p q)
          (check put_time tid_text strerror at error msg r p)
  error_check msg (moved n) p = (refl, (refl, ([], sym (append-nil p.logger.printed), omega arith)))
  error_check msg (failed errno) p = error_report (msg ++ strerror errno) p

  -- The call of the system was made, whatever came of it.
  abbrev pub Made : Syscall → Process → Process → Type 0
  Made c p q = Calls c p q × AtMostOneLine p q

  -- What is printed after an answer: for a refusal, the message and the reason, when the level lets
  -- errors through.
  abbrev pub complaint : (msg : Bytes) → Answer ℕ → LogLevel → List Bytes
  complaint msg (moved n) level = []
  complaint msg (failed errno) level =
      if leb (rank level) (rank error)
      then line_of put_time tid_text at error (msg ++ strerror errno) ∷ []
      else []

  error_checked :
      (msg : Bytes) (r : Answer ℕ) (p : Process)
      → check put_time tid_text strerror at error msg r p
        ≡ returns tt (record p {
          logger = record p.logger { printed = p.logger.printed ++ complaint msg r p.logger.level };
        })
  unfolding report
  error_checked msg (moved n) p =
      ap (λ l. returns tt (record p { logger = record p.logger { printed = l } }))
        (sym (append-nil p.logger.printed))
  error_checked msg (failed errno) p =
      ap (λ o. carry o p)
        (log_mild put_time tid_text at error (msg ++ strerror errno) p.logger refl)

  module _ (kernel : List Syscall → Syscall → Answer ℕ) where
    -- The process after a call of the system, with what is printed then.
    abbrev pub after : Syscall → (msg : Bytes) → Process → Process
    after c msg p = record p {
      calls = p.calls ++ c ∷ [];
      logger = record p.logger {
        printed = p.logger.printed ++ complaint msg (kernel p.calls c) p.logger.level;
      };
    }

    checked :
        (c : Syscall) (msg : Bytes) (p : Process)
        → check put_time tid_text strerror at error msg
            (kernel p.calls c)
            (record p { calls = p.calls ++ c ∷ [] })
          ≡ returns tt (after c msg p)
    checked c msg p = error_checked msg (kernel p.calls c) (record p { calls = p.calls ++ c ∷ [] })

    -- `close`, `shutdownWrite` and the setters of the options make their one call of the system and
    -- return, also when the kernel refuses it. When it does, they log an error, with its reason, that
    -- is printed just when the level of the logger lets errors through; otherwise nothing is printed.
    -- So the comments of the header, which say that they abort, do not hold.
    pub errors-Returns :
        (fd : Fd) (on : Bool) (p : Process)
        → (close put_time tid_text strerror at kernel fd p
            ≡ returns tt (after (close_call fd) (codes "Failed to close socket: ") p))
          × (shutdown_write put_time tid_text strerror at kernel fd p
              ≡ returns tt
                  (after (shutdown_call fd) (codes "Failed to shutdown write on socket: ") p))
          × (set_reuse_addr put_time tid_text strerror at kernel fd on p
              ≡ returns tt (
                  after
                    (setsockopt_call fd so_reuseaddr on)
                    (codes "Failed to set SO_REUSEADDR: ")
                    p))
          × (set_reuse_port put_time tid_text strerror at kernel fd on p
              ≡ returns tt (
                  after
                    (setsockopt_call fd so_reuseport on)
                    (codes "Failed to set SO_REUSEPORT: ")
                    p))
          × (set_keep_alive put_time tid_text strerror at kernel fd on p
              ≡ returns tt (
                  after
                    (setsockopt_call fd so_keepalive on)
                    (codes "Failed to set SO_KEEPALIVE: ")
                    p))
    unfolding close shutdown_write set_reuse_addr set_reuse_port set_keep_alive invoke
    errors-Returns fd on p = (
      checked (close_call fd) (codes "Failed to close socket: ") p,
      checked (shutdown_call fd) (codes "Failed to shutdown write on socket: ") p,
      checked (setsockopt_call fd so_reuseaddr on) (codes "Failed to set SO_REUSEADDR: ") p,
      checked (setsockopt_call fd so_reuseport on) (codes "Failed to set SO_REUSEPORT: ") p,
      checked (setsockopt_call fd so_keepalive on) (codes "Failed to set SO_KEEPALIVE: ") p,
    )

    -- The same, as what a caller needs of it.
    pub errors-Made :
        (fd : Fd) (on : Bool) (p : Process)
        → Returns
            (λ u q. Made (close_call fd) p q)
            (close put_time tid_text strerror at kernel fd p)
          × Returns
              (λ u q. Made (setsockopt_call fd so_reuseaddr on) p q)
              (set_reuse_addr put_time tid_text strerror at kernel fd on p)
          × Returns
              (λ u q. Made (setsockopt_call fd so_reuseport on) p q)
              (set_reuse_port put_time tid_text strerror at kernel fd on p)
    unfolding close set_reuse_addr set_reuse_port invoke
    errors-Made fd on p = (
      made (close_call fd) (codes "Failed to close socket: "),
      made (setsockopt_call fd so_reuseaddr on) (codes "Failed to set SO_REUSEADDR: "),
      made (setsockopt_call fd so_reuseport on) (codes "Failed to set SO_REUSEPORT: "),
    )
      where
        made :
            (c : Syscall) (msg : Bytes)
            → Returns
                (λ u q. Made c p q)
                (check put_time tid_text strerror at error msg
                  (kernel p.calls c)
                  (record p { calls = p.calls ++ c ∷ [] }))
        made c msg = error_check msg (kernel p.calls c) (record p { calls = p.calls ++ c ∷ [] })

    -- The destructor of a `Socket` closes its descriptor, just once, when there is one.
    pub destroy-Returns :
        (fd : Fd) (p : Process)
        → Returns
            (λ u q. q.calls ≡ p.calls ++ elim fd [ none ↦ [] | some n ↦ close_call (some n) ∷ [] ])
            (destroy put_time tid_text strerror at kernel fd p)
    unfolding destroy
    destroy-Returns none p = sym (append-nil p.calls)
    destroy-Returns (some n) p =
        Returns-map (λ u q. Made (close_call (some n)) p q) _
          (close put_time tid_text strerror at kernel (some n) p) (λ u q m. m.0)
          (errors-Made (some n) true p).0
