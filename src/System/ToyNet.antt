-- ===== src/System/ToyNet.antt =====
-- The socket calls of the small kernel.
use moduo_write.Common.{ℕ, ◌≡◌, refl, ◌≢◌, true, false, List, [], ◌∷◌, arith, ◌==◌, if◌then◌else◌}
use moduo_write.System.Net.{Net, NetLaws, SockAddr, opened, AcceptResult, accepted, not_accepted}
use moduo_write.System.Toy.{Toy, toy_laws}

abbrev pub emfile : ℕ
emfile = 24

-- The first client that waits, where its descriptor is free.
abbrev pub accept_next : List (ℕ × SockAddr) → Toy → AcceptResult × Toy
accept_next [] k = (not_accepted emfile, k)
accept_next ((conn, a) ∷ rest) k = if k.is_open conn then (not_accepted emfile, k) else (
  accepted conn a,
  record k { is_open = λ i. if conn == i then true else k.is_open i; arrivals = rest },
)

abbrev pub toy_net : Net Toy
toy_net = record {
  socket = λ k. (opened 8, record k { is_open = λ i. if 8 == i then true else k.is_open i });
  bind = λ k fd a. (true, k);
  listen = λ k fd backlog. (true, k);
  accept4 = λ k fd. accept_next k.arrivals k;
  setsockopt = λ k fd option value. k;
  close = λ k fd. record k { is_open = λ i. if fd == i then false else k.is_open i };
}

accepted-injective : {conn fd : ℕ} {a b : SockAddr} → accepted conn a ≡ accepted fd b → conn ≡ fd
accepted-injective e = cc e

pub fresh :
    (w : List (ℕ × SockAddr)) (k : Toy) (conn : ℕ) (a : SockAddr)
    → (accept_next w k).0 ≡ accepted conn a
    → (k.is_open conn ≡ false) × ((accept_next w k).1.is_open conn ≡ true)
fresh [] k conn a e = cc e
fresh ((fd, b) ∷ rest) k conn a e =
    ground (arith, accepted-injective {conn = fd} {fd = conn} {a = b} {b = a})

pub other :
    (w : List (ℕ × SockAddr)) (k : Toy) (conn i : ℕ) (a : SockAddr)
    → (accept_next w k).0 ≡ accepted conn a
    → conn ≢ i
    → (accept_next w k).1.is_open i ≡ k.is_open i
other [] k conn i a e h = cc e
other ((fd, b) ∷ rest) k conn i a e h =
    ground (arith, accepted-injective {conn = fd} {fd = conn} {a = b} {b = a})

pub unchanged :
    (w : List (ℕ × SockAddr)) (k : Toy) (e i : ℕ)
    → (accept_next w k).0 ≡ not_accepted e
    → (accept_next w k).1.is_open i ≡ k.is_open i
unchanged [] k e i h = refl
unchanged ((fd, b) ∷ rest) k e i h = ground arith

pub close-closed : (k : Toy) (fd : ℕ) → (toy_net.close k fd).is_open fd ≡ false
close-closed k fd = ground arith

pub close-other : (k : Toy) (fd i : ℕ) → fd ≢ i → (toy_net.close k fd).is_open i ≡ k.is_open i
close-other k fd i h = ground arith

abbrev pub toy_net_laws : NetLaws toy_laws toy_net
toy_net_laws = record {
  is_open = λ k. k.is_open;
  accept_fresh = λ k fd. fresh k.arrivals k;
  accept_other = λ k fd. other k.arrivals k;
  accept_failed = λ k fd. unchanged k.arrivals k;
  close_closed = close-closed;
  close_other = close-other;
  close_interest = λ k fd e i h. h;
  listen_interest = λ k fd backlog e i. refl;
  write_open = λ k fd i bytes. refl;
}
