-- ===== src/Connector/Backoff.antt =====
-- The delays between retries.
use agora_im.Shared.{refl, ℕ, zero, suc, ◌*◌, ◌≡◌, arith, min, ◌^◌, ap, ◌∙◌}
use agora_im.Connector.{backoff}

-- The delay after some failed attempts.
pub delay_after : ℕ → ℕ
delay_after zero = 500
delay_after (suc n) = backoff (delay_after n)

capped : (m : ℕ) → backoff (min m 30000) ≡ min (2 * m) 30000
unfolding backoff
capped m = ground arith

-- The delays double from half a second, up to thirty seconds and never beyond.
pub delay_after_lem : (n : ℕ) → delay_after n ≡ min (2 ^ n * 500) 30000
unfolding delay_after
delay_after_lem zero = refl
delay_after_lem (suc n) =
    ap backoff (delay_after_lem n) ∙ capped (2 ^ n * 500) ∙ ap (λ m. min m 30000) (omega arith)
