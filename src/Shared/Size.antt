-- ===== src/Shared/Size.antt =====
-- `size_t`: 64 bits that wrap.
use Prim.Native.Nat.{ℕ, ◌+◌, ◌-◌, ◌%◌, ◌^◌}

abbrev pub add_size : ℕ → ℕ → ℕ
add_size a b = (a + b) % 2 ^ 64

abbrev pub sub_size : ℕ → ℕ → ℕ
sub_size a b = (a + 2 ^ 64 - b) % 2 ^ 64

-- std::vector<char>::max_size() is one less.
abbrev pub max_bytes : ℕ
max_bytes = 2 ^ 63
