-- ===== src/InetAddress.antt =====
-- include/agora/net/inet_address.h and src/net/inet_address.cpp: an IPv4 address and a port.
--
-- A `sockaddr_in` holds the bytes of the port and of the address as they lie in memory, that is in
-- network order. `inet_pton` and `inet_ntop` are arguments.
pub mod Text
mod Examples
use agora_im.Shared.{
  ℕ, ◌+◌, ◌*◌, ◌/◌, ◌%◌, ◌≡◌, Bool, true, false, Option, none, some, ◌∷◌, ◌++◌, if◌then◌else◌,
  Bytes, decimal,
}

pub record Ipv4 : Type 0 where
  pub first : ℕ
  pub second : ℕ
  pub third : ℕ
  pub fourth : ℕ

pub record NetPort : Type 0 where
  pub high : ℕ
  pub low : ℕ

-- The family is always AF_INET.
pub record SockAddr : Type 0 where
  pub port : NetPort
  pub ip : Ipv4

pub record InetAddress : Type 0 where
  pub addr : SockAddr

-- On the 16 bits of a port.
unfoldable pub htons : ℕ → NetPort
htons p = record { high = p / 256 % 256; low = p % 256 }

unfoldable pub ntohs : NetPort → ℕ
ntohs n = n.high * 256 + n.low

abbrev pub inaddr_any : Ipv4
inaddr_any = record { first = 0; second = 0; third = 0; fourth = 0 }

abbrev pub inaddr_loopback : Ipv4
inaddr_loopback = record { first = 127; second = 0; third = 0; fourth = 1 }

abbrev pub zeroed : InetAddress
zeroed = record { addr = record { port = record { high = 0; low = 0 }; ip = inaddr_any } }

unfoldable pub from_port : (port : ℕ) → (loopback_only ipv6 : Bool) → InetAddress
from_port port loopback_only ipv6 = record {
  addr = record { port = htons port; ip = if loopback_only then inaddr_loopback else inaddr_any };
}

unfoldable pub port_of : InetAddress → ℕ
port_of a = ntohs a.addr.port

unfoldable pub set_sock_addr : SockAddr → InetAddress → InetAddress
set_sock_addr s a = record a { addr = s }

module _ (inet_pton : Bytes → Option Ipv4) where
  unfoldable pub from_ip : (ip : Bytes) → (port : ℕ) → (ipv6 : Bool) → InetAddress
  from_ip ip port ipv6 = record {
    addr = record {
      port = htons port;
      ip = elim (inet_pton ip) [ none ↦ inaddr_any | some x ↦ x ];
    };
  }

module _ (inet_ntop : Ipv4 → Bytes) where
  unfoldable pub to_ip : InetAddress → Bytes
  to_ip a = inet_ntop a.addr.ip

  unfoldable pub to_ip_port : InetAddress → Bytes
  to_ip_port a = to_ip a ++ b':' ∷ decimal (port_of a)
