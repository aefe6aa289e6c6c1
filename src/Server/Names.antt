-- ===== src/Server/Names.antt =====
-- TcpServer.cc: the names of the connections, by which the server's map is kept.
use moduo_write.Common.{
  ℕ, ◌^◌, ◌<◌, ◌≤◌, ◌≡◌, ◌≢◌, sym, ◌∙◌, refl, append_assoc, List, [], ◌∷◌, ◌++◌, arith, length,
  length-append, take_all, done, done-injective, subst,
}
use mathlib.Core.List.{append_cancel_left}
use moduo_write.System.Libc.{Libc, LibcLaws}
use moduo_write.InetAddress.{InetAddress, to_ip_port}
use moduo_write.InetAddress.RoundTrip.{IsInet, to_ip_port-fits}
use moduo_write.Server.{conn_name}

module _ {libc : Libc} (laws : LibcLaws libc) where
  conn_name-full :
      (name ip_port : List ℕ) (i : ℕ)
      → length ip_port ≤ 21
      → i < 2 ^ 31
      → conn_name libc.decimal name ip_port i ≡ (name ++ 45 ∷ (ip_port ++ 35 ∷ libc.decimal i))
  unfolding conn_name
  conn_name-full name ip_port i l h =
      let digits : length (libc.decimal i) ≤ 10 =
        laws.decimal_length i 10 (omega arith) (omega arith) in
      let fits : length (45 ∷ (ip_port ++ 35 ∷ libc.decimal i)) ≤ 63 =
        omega (arith, length-append ip_port (35 ∷ libc.decimal i)) in
      rw (take_all 63 (45 ∷ (ip_port ++ 35 ∷ libc.decimal i)) fits) refl

  -- Connections of one server with different numbers have different names: the buffer of 64 bytes
  -- holds the address of the server and the number in full.
  pub conn_name-ne :
      (name ip_port : List ℕ) (a : InetAddress) (i j : ℕ)
      → IsInet a.addr
      → to_ip_port libc a ≡ done ip_port
      → i < 2 ^ 31
      → j < 2 ^ 31
      → i ≢ j
      → conn_name libc.decimal name ip_port i ≢ conn_name libc.decimal name ip_port j
  conn_name-ne name ip_port a i j v e hi hj apart same =
      let (prints, short) = to_ip_port-fits laws a v in
      let fits : length ip_port ≤ 21 =
        subst (λ t. length t ≤ 21) (done-injective (sym prints ∙ e)) short in
      let tails = append_cancel_left name _ _ (
        sym (conn_name-full name ip_port i fits hi)
        ∙ same
        ∙ conn_name-full name ip_port j fits hj) in
      let digits =
        append_cancel_left (45 ∷ (ip_port ++ 35 ∷ [])) (libc.decimal i) (libc.decimal j) (
          ground (
            arith,
            append_assoc ip_port (35 ∷ []) (libc.decimal i),
            append_assoc ip_port (35 ∷ []) (libc.decimal j),
          )) in
      apart (laws.decimal_injective i j digits)
