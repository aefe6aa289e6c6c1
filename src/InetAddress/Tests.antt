-- ===== src/InetAddress/Tests.antt =====
-- The theorems on addresses at 127.0.0.1:8080.
use moduo_write.Common.{◌≡◌, ◌≤◌, ◌∷◌, ◌++◌, arith, length, done}
use moduo_write.System.ToyLibc.{toy_libc, toy_libc_laws}
use moduo_write.InetAddress.{colon, new, to_ip_port}
use moduo_write.InetAddress.RoundTrip.{new-to_ip_port}

new-to_ip_port_example :
    let text = toy_libc.inet_ntop 16777343 ++ colon ∷ toy_libc.decimal 8080 in
    (to_ip_port toy_libc (new toy_libc 8080 (toy_libc.inet_ntop 16777343)) ≡ done text)
    × (length text ≤ 21)
new-to_ip_port_example = new-to_ip_port toy_libc_laws 8080 16777343 (omega arith) (omega arith)
