-- ===== src/InetAddress/RoundTrip.antt =====
-- InetAddress.cc: what an address prints.
use moduo_write.Common.{
  ℕ, ◌+◌, ◌^◌, ◌<◌, ◌≤◌, ◌≡◌, refl, ap, ap₂, ◌∙◌, subst, true, ◌∷◌, ◌++◌, arith, leb, length,
  length-append, done,
}
use moduo_write.System.Net.{SockAddr}
use moduo_write.System.Libc.{Libc, LibcLaws}
use moduo_write.InetAddress.{InetAddress, af_inet, colon, new, to_ip, to_port, to_ip_port}

-- A `sockaddr_in` of the family `AF_INET`, whose fields fit their types.
pub record IsInet (a : SockAddr) : Type 0 where
  pub family : a.sin_family ≡ af_inet
  pub port : a.sin_port < 2 ^ 16
  pub address : a.sin_addr < 2 ^ 32

module _ {libc : Libc} (laws : LibcLaws libc) where
  -- `toIpPort` never writes beyond its buffer: it gives the text of the address and the port with a
  -- colon between them, at most 21 characters.
  pub to_ip_port-fits :
      (a : InetAddress)
      → IsInet a.addr
      → let text = to_ip libc a ++ colon ∷ libc.decimal (to_port libc a) in
        (to_ip_port libc a ≡ done text) × (length text ≤ 21)
  unfolding to_ip_port to_ip to_port
  to_ip_port-fits a v =
      let ip = libc.inet_ntop a.addr.sin_addr in
      let port = libc.ntohs a.addr.sin_port in
      let short : length ip ≤ 15 = laws.ntop_length a.addr.sin_addr v.address in
      let digits : length (libc.decimal port) ≤ 5 =
        laws.decimal_length port 5 (omega arith)
          (omega (arith, laws.ntohs_short a.addr.sin_port v.port)) in
      let fits : leb (length ip + (length (colon ∷ libc.decimal port) + 1)) 64 ≡ true =
        ground arith in
      (rw fits refl, omega (arith, length-append ip (colon ∷ libc.decimal port)))

  -- An address made from a port and the text of an IPv4 address prints, by `toIpPort`, that text and
  -- that port with a colon between them, at most 21 characters, within its buffer.
  pub new-to_ip_port :
      (port s_addr : ℕ)
      → port < 2 ^ 16
      → s_addr < 2 ^ 32
      → let text = libc.inet_ntop s_addr ++ colon ∷ libc.decimal port in
        (to_ip_port libc (new libc port (libc.inet_ntop s_addr)) ≡ done text) × (length text ≤ 21)
  unfolding new to_ip to_port
  new-to_ip_port port s_addr hp ha =
      let same_ip = laws.addr_ntop s_addr ha in
      let same_port = laws.ntohs_htons port hp in
      let a = new libc port (libc.inet_ntop s_addr) in
      let (prints, short) =
        to_ip_port-fits a
          (record { family = refl; port = laws.htons_short port hp; address = rw same_ip ha }) in
      let is : to_ip libc a ++ colon ∷ libc.decimal (to_port libc a)
          ≡ libc.inet_ntop s_addr ++ colon ∷ libc.decimal port =
        ap₂ (λ i n. i ++ colon ∷ libc.decimal n) (ap libc.inet_ntop same_ip) same_port in
      (prints ∙ ap done is, subst (λ xs. length xs ≤ 21) is short)
