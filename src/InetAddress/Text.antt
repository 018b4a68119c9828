-- ===== src/InetAddress/Text.antt =====
-- An address and what it is written as.
use agora_im.Shared.{
  ℕ, ◌+◌, ◌*◌, ◌/◌, ◌%◌, ◌<◌, ◌≡◌, refl, Bool, Option, none, some, ◌∷◌, ◌++◌, arith, Bytes, decimal,
}
use agora_im.InetAddress.{
  Ipv4, NetPort, InetAddress, htons, ntohs, inaddr_any, from_port, from_ip, port_of, to_ip,
  to_ip_port,
}

ntohs-htons : (p : ℕ) → ntohs (htons p) ≡ p % 65536
unfolding ntohs htons
ntohs-htons p = omega arith

htons-ntohs : (n : NetPort) → n.high < 256 → n.low < 256 → htons (ntohs n) ≡ n
unfolding ntohs htons
htons-ntohs n h l =
    let a : (n.high * 256 + n.low) / 256 % 256 ≡ n.high = omega (arith, h, l) in
    let b : (n.high * 256 + n.low) % 256 ≡ n.low = omega (arith, h, l) in rw (a, b) refl

-- Two bytes.
abbrev pub IsPort : NetPort → Type 0
IsPort n = (n.high < 256) × (n.low < 256)

-- The port of an address is the one it was made with, as 16 bits, for both constructors.
pub port_of_lem :
    (inet_pton : Bytes → Option Ipv4) (ip : Bytes) (port : ℕ) (loopback_only ipv6 : Bool)
    → (port_of (from_port port loopback_only ipv6) ≡ port % 65536)
      × (port_of (from_ip inet_pton ip port ipv6) ≡ port % 65536)
unfolding port_of from_port from_ip
port_of_lem inet_pton ip port loopback_only ipv6 = (ntohs-htons port, ntohs-htons port)

-- An address is made again from its own text and port, when `inet_pton` reads what `inet_ntop`
-- writes and the port is two bytes.
from_ip-to_ip :
    (inet_pton : Bytes → Option Ipv4) (inet_ntop : Ipv4 → Bytes) (a : InetAddress) (ipv6 : Bool)
    → ((x : Ipv4) → inet_pton (inet_ntop x) ≡ some x)
    → a.addr.port.high < 256
    → a.addr.port.low < 256
    → (from_ip inet_pton (to_ip inet_ntop a) (port_of a) ipv6 ≡ a)
unfolding from_ip to_ip port_of
from_ip-to_ip inet_pton inet_ntop a ipv6 reads h l =
    rw (reads a.addr.ip, htons-ntohs a.addr.port h l) refl

-- What is written for an address made from a text: when `inet_pton` reads the text, what `inet_ntop`
-- writes for that; otherwise, that the address is any. The port stands behind a colon.
pub to_ip_port-from_ip :
    (inet_pton : Bytes → Option Ipv4) (inet_ntop : Ipv4 → Bytes) (ip : Bytes) (port : ℕ)
    (ipv6 : Bool)
    → ((x : Ipv4)
        → inet_pton ip ≡ some x
        → to_ip_port inet_ntop (from_ip inet_pton ip port ipv6)
          ≡ inet_ntop x ++ b':' ∷ decimal (port % 65536))
      × (inet_pton ip ≡ none
          → to_ip_port inet_ntop (from_ip inet_pton ip port ipv6)
            ≡ inet_ntop inaddr_any ++ b':' ∷ decimal (port % 65536))
unfolding to_ip_port to_ip port_of from_ip
to_ip_port-from_ip inet_pton inet_ntop ip port ipv6 =
    (λ x e. rw (e, ntohs-htons port) refl, λ e. rw (e, ntohs-htons port) refl)
