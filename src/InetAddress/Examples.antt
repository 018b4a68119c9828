-- ===== src/InetAddress/Examples.antt =====
-- Two addresses with the same text.
use agora_im.Shared.{◌+◌, ◌-◌, true, false, Option, none, some, [], ◌∷◌, Bytes}
use agora_im.InetAddress.{Ipv4, InetAddress, from_port}

-- The text of an address is its four bytes, each moved to behind the colon.
abbrev moved : Ipv4 → Bytes
moved x = (x.first + 59) ∷ (x.second + 59) ∷ (x.third + 59) ∷ (x.fourth + 59) ∷ []

abbrev back : Bytes → Option Ipv4
back (a ∷ b ∷ c ∷ d ∷ []) =
    some (record { first = a - 59; second = b - 59; third = c - 59; fourth = d - 59 })
back _ = none

abbrev local : InetAddress
local = from_port 8888 true false
