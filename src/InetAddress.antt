-- ===== src/InetAddress.antt =====
-- InetAddress.h and InetAddress.cc: an IPv4 address with a port.
pub mod RoundTrip
mod Tests
use moduo_write.Common.{
  ℕ, ◌+◌, ◌≤◌, List, [], ◌∷◌, ◌++◌, length, leb, if◌then◌else◌, Outcome, done, undefined,
}
use moduo_write.System.Net.{SockAddr}
use moduo_write.System.Libc.{Libc}

-- `class InetAddress`.
pub record InetAddress : Type 0 where
  pub addr : SockAddr

abbrev pub af_inet : ℕ
af_inet = 2

-- ':'
abbrev pub colon : ℕ
colon = 58

-- The constructor from a `sockaddr_in`, and the two accessors.
unfoldable pub from_sock_addr : SockAddr → InetAddress
from_sock_addr addr = record { addr = addr }

unfoldable pub get_sock_addr : InetAddress → SockAddr
get_sock_addr a = a.addr

unfoldable pub set_sock_addr : SockAddr → InetAddress → InetAddress
set_sock_addr addr a = record a { addr = addr }

module _ (libc : Libc) where
  -- The constructor from a port and a text.
  unfoldable pub new : ℕ → List ℕ → InetAddress
  new port ip = record {
    addr = record {
      sin_family = af_inet;
      sin_port = libc.htons port;
      sin_addr = libc.inet_addr ip;
    };
  }

  unfoldable pub to_ip : InetAddress → List ℕ
  to_ip a = libc.inet_ntop a.addr.sin_addr

  unfoldable pub to_port : InetAddress → ℕ
  to_port a = libc.ntohs a.addr.sin_port

  -- `sprintf` into what is left of the 64 bytes, with the zero at the end; beyond them is undefined.
  unfoldable pub to_ip_port : InetAddress → Outcome (List ℕ)
  to_ip_port a =
      let buf = libc.inet_ntop a.addr.sin_addr in
      let text = colon ∷ libc.decimal (libc.ntohs a.addr.sin_port) in
      if leb (length buf + (length text + 1)) 64 then done (buf ++ text) else undefined
