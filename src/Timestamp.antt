-- ===== src/Timestamp.antt =====
-- include/agora/base/timestamp.h and src/base/timestamp.cpp: a time, as microseconds since the
-- epoch, which are not negative here. `addTime` is with the timers, whose interval it adds.
--
-- What std::put_time writes for a second, in local time, is an argument.
mod Examples
use agora_im.Shared.{
  ℕ, zero, suc, ◌+◌, ◌-◌, ◌*◌, ◌/◌, ◌%◌, ◌^◌, ◌≤◌, ◌<◌, ◌≡◌, ◌∙◌, ap, refl, sym, Bool, true, false,
  List, [], ◌∷◌, ◌++◌, ltb, ◌==◌, if◌then◌else◌, arith, Bytes, length, length-append, replicate,
  length-replicate, decimal, value, value-zeros, value-decimal, length-decimal,
}

pub record Timestamp : Type 0 where
  pub micros : ℕ

-- The clock gives the microseconds.
unfoldable pub now : ℕ → Timestamp
now clock = record { micros = clock }

unfoldable pub invalid : Timestamp
invalid = record { micros = 0 }

unfoldable pub is_valid : Timestamp → Bool
is_valid t = ltb 0 t.micros

unfoldable pub is_before : Timestamp → Timestamp → Bool
is_before t u = ltb t.micros u.micros

unfoldable pub is_same : Timestamp → Timestamp → Bool
is_same t u = t.micros == u.micros

unfoldable pub to_string : Timestamp → Bytes
to_string t = decimal t.micros

-- std::setw and std::setfill('0').
unfoldable pub zero_fill : ℕ → Bytes → Bytes
zero_fill width xs = replicate (width - length xs) b'0' ++ xs

unfoldable pub to_formatted_string : (put_time : ℕ → Bytes) → Bool → Timestamp → Bytes
to_formatted_string put_time show t =
    let date = put_time (t.micros / 1000000) in
    if show then date ++ b'.' ∷ zero_fill 6 (decimal (t.micros % 1000000)) else date

length-zero_fill :
    (width : ℕ) (xs : Bytes) → length xs ≤ width → length (zero_fill width xs) ≡ width
unfolding zero_fill
length-zero_fill width xs h = omega (
  arith,
  length-append (replicate (width - length xs) b'0') xs,
  length-replicate {A = ℕ} (width - length xs) b'0',
)

fill_value : (n : ℕ) → value (zero_fill 6 (decimal n)) ≡ n
unfolding zero_fill
fill_value n = value-zeros (6 - length (decimal n)) (decimal n) ∙ value-decimal n

-- With microseconds, the text of a time is that of its second, a dot, and always six digits, which
-- are the microseconds within the second; without, it is that of its second.
to_formatted_string_lem :
    (put_time : ℕ → Bytes) (t : Timestamp)
    → (to_formatted_string put_time false t ≡ put_time (t.micros / 1000000))
      × ((digits : Bytes) × (to_formatted_string put_time true t
            ≡ to_formatted_string put_time false t ++ b'.' ∷ digits)
          × (length digits ≡ 6)
          × (value digits ≡ t.micros % 1000000))
unfolding to_formatted_string
to_formatted_string_lem put_time t =
    let fraction = t.micros % 1000000 in
    (
      refl,
      (
        zero_fill 6 (decimal fraction),
        refl,
        length-zero_fill 6 (decimal fraction) (length-decimal fraction 5 (omega arith)),
        fill_value fraction,
      ),
    )
