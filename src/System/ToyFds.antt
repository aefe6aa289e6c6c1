-- ===== src/System/ToyFds.antt =====
-- The descriptors of a loop in the small kernel: 3 for epoll and 4 for the eventfd.
use moduo_write.Common.{ℕ, ◌≡◌, refl, true, none, [], ◌∷◌, arith, ◌==◌, if◌then◌else◌, take}
use moduo_write.System.{got}
use moduo_write.System.Net.{opened}
use moduo_write.System.Fds.{Fds, FdsLaws}
use moduo_write.System.Toy.{Toy, toy_laws}

abbrev pub toy_fds : Fds Toy
toy_fds = record {
  epoll_create1 = λ k. (
    opened 3,
    record k {
      interest = λ e i. if 3 == e then none else k.interest e i;
      is_open = λ i. if 3 == i then true else k.is_open i;
    },
  );
  eventfd = λ k. (opened 4, record k { is_open = λ i. if 4 == i then true else k.is_open i });
  read = λ k fd n. (got (take n (1 ∷ 0 ∷ 0 ∷ 0 ∷ 0 ∷ 0 ∷ 0 ∷ 0 ∷ [])), k);
}

opened-injective : {a b : ℕ} → opened a ≡ opened b → a ≡ b
opened-injective e = cc e

epoll-fresh :
    (k : Toy) (e i : ℕ)
    → (toy_fds.epoll_create1 k).0 ≡ opened e
    → (toy_fds.epoll_create1 k).1.interest e i ≡ none
epoll-fresh k e i h = ground (arith, opened-injective h)

pub toy_fds_laws : FdsLaws toy_laws toy_fds
toy_fds_laws = record { epoll_fresh = epoll-fresh; eventfd_interest = λ k e i. refl }
