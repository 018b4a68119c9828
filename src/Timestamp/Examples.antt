-- ===== src/Timestamp/Examples.antt =====
-- A time and its texts.
use agora_im.Shared.{ℕ, ◌≡◌, refl, true, Bytes, codes, decimal, decimal_on}
use agora_im.Timestamp.{Timestamp, to_formatted_string, zero_fill}

-- One second and forty microseconds.
abbrev late : Timestamp
late = record { micros = 1000040 }

abbrev seconds : ℕ → Bytes
seconds n = codes "s"

text_of_late : to_formatted_string seconds true late ≡ codes "s.000040"
unfolding to_formatted_string zero_fill decimal decimal_on
text_of_late = refl
