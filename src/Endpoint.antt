-- ===== src/Endpoint.antt =====
-- The `sockaddr_in` values that the transports compare, and the datagrams that they hand to `sendto`.
use socket_programming.Base.{ℕ, Bool, true, ◌&&◌, List, ◌==◌, ◌≡◌, arith}

pub record Endpoint : Type 0 where
  pub sin_family : ℕ
  pub sin_port : ℕ
  pub s_addr : ℕ

-- `sameEndpoint` of server/src/rdt/RdtReceiver.cpp and RdtSender.cpp
unfoldable pub same_endpoint : Endpoint → Endpoint → Bool
same_endpoint left right =
    left.sin_family == right.sin_family
    && left.sin_port == right.sin_port
    && left.s_addr == right.s_addr

-- A datagram on its way: where it goes and its bytes.
abbrev pub Sent : Type 0
Sent = Endpoint × List ℕ

pub same_endpoint_self : (e : Endpoint) → same_endpoint e e ≡ true
unfolding same_endpoint
same_endpoint_self e = ground arith
