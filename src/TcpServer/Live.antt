-- ===== src/TcpServer/Live.antt =====
-- How often a name is in the map, and how often its connection was established and destroyed.
use agora_im.Shared.{
  ℕ, ◌+◌, ◌<◌, ◌≡◌, refl, Bool, true, false, some, List, [], ◌∷◌, ◌++◌, if◌then◌else◌, Bool-cases,
  inl, inr, arith, Bytes, eq_bytes, eq_bytes_iff,
}
use agora_im.TcpServer.{Connection, Task, establishes, destroys, ConnectionMap, assign, erase, find}

unfoldable pub one_if : Bool → ℕ
one_if true = 1
one_if false = 0

-- The number of entries with this name.
unfoldable pub live : Bytes → ConnectionMap → ℕ
live name [] = 0
live name ((n, d) ∷ m) = one_if (eq_bytes n name) + live name m

unfoldable pub establishes_it : Bytes → Task → Bool
establishes_it name (establishes c) = eq_bytes c.name name
establishes_it name (destroys c) = false

unfoldable pub destroys_it : Bytes → Task → Bool
destroys_it name (establishes c) = false
destroys_it name (destroys c) = eq_bytes c.name name

unfoldable pub count : (Task → Bool) → List (ℕ × Task) → ℕ
count p [] = 0
count p ((loop, t) ∷ ts) = one_if (p t) + count p ts

pub count-append :
    (p : Task → Bool) (ts us : List (ℕ × Task)) → count p (ts ++ us) ≡ count p ts + count p us
unfolding count
count-append p [] us = omega arith
count-append p ((loop, t) ∷ ts) us = omega (arith, count-append p ts us)

pub live-assign :
    (name key : Bytes) (c : Connection) (m : ConnectionMap)
    → live key m ≡ 0
    → live name (assign key c m) ≡ live name m + one_if (eq_bytes key name)
unfolding live assign one_if
live-assign name key c [] h = omega arith
live-assign name key c ((n, d) ∷ m) h = ground (
  arith,
  live-assign name key c m,
  eq_bytes_iff n key,
  eq_bytes_iff n name,
  eq_bytes_iff key name,
)

pub live-erase :
    (name key : Bytes) (m : ConnectionMap)
    → live name (erase key m) ≡ (if eq_bytes key name then 0 else live name m)
unfolding live erase one_if
live-erase name key [] = ground arith
live-erase name key ((n, d) ∷ m) =
    ground
      (arith, live-erase name key m, eq_bytes_iff n key, eq_bytes_iff n name, eq_bytes_iff key name)

pub live-find :
    (name : Bytes) (c : Connection) (m : ConnectionMap) → find name m ≡ some c → 0 < live name m
unfolding live find one_if
live-find name c [] h = absurd (cc)
live-find name c ((n, d) ∷ m) h = ground (arith, live-find name c m)

-- Each connection stands in the map under its own name.
abbrev pub Keyed : ConnectionMap → Type 0
Keyed [] = Unit {0}
Keyed ((n, c) ∷ m) = (n ≡ c.name) × Keyed m

pub assign-Keyed : (c : Connection) (m : ConnectionMap) → Keyed m → Keyed (assign c.name c m)
unfolding assign
assign-Keyed c [] h = (refl, tt)
assign-Keyed c ((n, d) ∷ m) (e, h) = elim (Bool-cases (eq_bytes n c.name)) [
  | inl t ↦ rw t (refl, h)
  | inr f ↦ rw f (e, assign-Keyed c m h)
]

pub erase-Keyed : (name : Bytes) (m : ConnectionMap) → Keyed m → Keyed (erase name m)
unfolding erase
erase-Keyed name [] h = tt
erase-Keyed name ((n, d) ∷ m) (e, h) = elim (Bool-cases (eq_bytes n name)) [
  | inl t ↦ rw t (erase-Keyed name m h)
  | inr f ↦ rw f (e, erase-Keyed name m h)
]
