-- ===== src/System/Toy.antt =====
-- A small kernel that does what the manual pages say, to run the model on. Its sockets always have
-- the same bytes to read, or are at the end of the stream if there are none; its `write` takes at most
-- `window` bytes, and it reports the events that descriptor 5 is registered for.
use moduo_write.Common.{
  ℕ, ltb, ◌≡◌, refl, ap, sym, subst, zero, suc, ◌≢◌, Bool, true, false, Option, none, some, List,
  [], ◌∷◌, ◌++◌, arith, ◌==◌, if◌then◌else◌, length, take, min, ◌≤◌, length-take, Mem, ◌&&◌,
}
use mathlib.Core.List.{ne-nil_of_mem, Memᴰ}
use mathlib.Core.List.Memᴰ
use mathlib.Core.Logic.{∥∥₁_map}
use moduo_write.System.{
  Sys, SysLaws, count, failed, got, Interest, CtlOp, ctl_add, ctl_mod, ctl_del, ready,
}
use moduo_write.System.Net.{SockAddr}

pub record Toy : Type 0 where
  pub window : ℕ
  pub sent : ℕ → List ℕ
  pub shut : ℕ → Bool
  pub interest : ℕ → ℕ → Option Interest
  pub is_open : ℕ → Bool
  -- the bytes that every socket has to read
  pub incoming : List ℕ
  -- the clients that wait to be accepted, with the descriptor that each gets
  pub arrivals : List (ℕ × SockAddr)

abbrev pub fresh : ℕ → Toy
fresh window = record {
  window = window;
  sent = λ fd. [];
  shut = λ fd. false;
  interest = λ e fd. none;
  is_open = λ fd. ltb fd 9;
  incoming = 7 ∷ 8 ∷ [];
  arrivals = [];
}

abbrev pub entry : CtlOp → Interest → Option Interest
entry ctl_add v = some v
entry ctl_mod v = some v
entry ctl_del v = none

-- What is reported, where there is room.
abbrev pub pending : Option Interest → ℕ → List Interest
pending none room = []
pending (some v) zero = []
pending (some v) (suc room) = v ∷ []

abbrev pub toy : Sys Toy
toy = record {
  readv = λ k fd room. (got (take room k.incoming), k);
  write = λ k fd bytes. (
    count (min k.window (length bytes)),
    record k {
      sent =
          λ i. if fd == i then k.sent fd ++ take (min k.window (length bytes)) bytes else k.sent i;
    },
  );
  so_error = λ k fd. (count 0, k);
  shutdown = λ k fd. (true, record k { shut = λ i. if fd == i then true else k.shut i });
  epoll_ctl = λ k e op fd v. (
    true,
    record k { interest = λ j i. if (e == j) && (fd == i) then entry op v else k.interest j i },
  );
  epoll_wait = λ k e room timeout. (ready (pending (k.interest e 5) room), k);
}

got-length : {xs ys : List ℕ} → got xs ≡ got ys → length xs ≡ length ys
got-length h = cc h

pub readv-count :
    (k : Toy) (fd room : ℕ) (bytes : List ℕ)
    → (toy.readv k fd room).0 ≡ got bytes
    → length bytes ≤ room
readv-count k fd room bytes e = omega (arith, got-length e, length-take room k.incoming)

pub write-count :
    (k : Toy) (fd n : ℕ) (bytes : List ℕ)
    → (toy.write k fd bytes).0 ≡ count n
    → (n ≤ length bytes) × ((toy.write k fd bytes).1.sent fd ≡ k.sent fd ++ take n bytes)
write-count k fd n bytes e = ground arith

pub write-other :
    (k : Toy) (fd i : ℕ) (bytes : List ℕ) → fd ≢ i → (toy.write k fd bytes).1.sent i ≡ k.sent i
write-other k fd i bytes h = ground arith

pub shutdown-shut : (k : Toy) (fd : ℕ) → (toy.shutdown k fd).1.shut fd ≡ true
shutdown-shut k fd = ground arith

pub ctl-interest :
    (k : Toy) (e fd : ℕ) (op : CtlOp) (v : Interest)
    → (toy.epoll_ctl k e op fd v).1.interest e fd ≡ entry op v
ctl-interest k e fd op v = ground arith

pub ctl-other :
    (k : Toy) (e fd i : ℕ) (op : CtlOp) (v : Interest)
    → fd ≢ i
    → (toy.epoll_ctl k e op fd v).1.interest e i ≡ k.interest e i
ctl-other k e fd i op v h = ground arith

ready-injective : {xs ys : List Interest} → ready xs ≡ ready ys → xs ≡ ys
ready-injective h = cc h

ready-length : {xs ys : List Interest} → ready xs ≡ ready ys → length xs ≡ length ys
ready-length h = ap length (ready-injective h)

length-pending : (o : Option Interest) (room : ℕ) → length (pending o room) ≤ room
length-pending none room = omega arith
length-pending (some v) zero = omega arith
length-pending (some v) (suc room) = omega arith

pub wait-count :
    (k : Toy) (e room timeout : ℕ) (es : List Interest)
    → (toy.epoll_wait k e room timeout).0 ≡ ready es
    → length es ≤ room
wait-count k e room timeout es h =
    omega (arith, length-pending (k.interest e 5) room, ready-length h)

pending-registered :
    (o : Option Interest) (room : ℕ) (v : Interest)
    → Mem v (pending o room)
    → ∥ ((w : Interest) × (o ≡ some w) × (w.ptr ≡ v.ptr)) ∥₁
pending-registered none room v m = absurd (ne-nil_of_mem m refl)
pending-registered (some w) zero v m = absurd (ne-nil_of_mem m refl)
pending-registered (some w) (suc room) v m =
    ∥∥₁_map m (λ (d : Memᴰ v (w ∷ [])). (w, refl, ap (λ x. x.ptr) (sym (Memᴰ.eq_of_singleton d))))

pub wait-registered :
    (k : Toy) (e room timeout : ℕ) (es : List Interest) (v : Interest)
    → (toy.epoll_wait k e room timeout).0 ≡ ready es
    → Mem v es
    → ∥ ((fd : ℕ) × (w : Interest) × (k.interest e fd ≡ some w) × (w.ptr ≡ v.ptr)) ∥₁
wait-registered k e room timeout es v h m =
    ∥∥₁_map (pending-registered (k.interest e 5) room v (subst (Mem v) (sym (ready-injective h)) m))
      λ (w, r, q). (5, w, r, q)

pub succeeds :
    (k : Toy) (e fd : ℕ) (op : CtlOp) (v : Interest) → (toy.epoll_ctl k e op fd v).0 ≢ false
succeeds k e fd op v h = cc h

pub never_fails : (k : Toy) (fd e : ℕ) (bytes : List ℕ) → (toy.write k fd bytes).0 ≢ failed e
never_fails k fd e bytes h = cc h

abbrev pub toy_laws : SysLaws toy
toy_laws = record {
  sent = λ k. k.sent;
  shut = λ k. k.shut;
  interest = λ k. k.interest;
  readv_count = readv-count;
  readv_sent = λ k fd room i. refl;
  readv_interest = λ k fd room e i. refl;
  write_count = write-count;
  write_failed = λ k fd e bytes h. absurd (never_fails k fd e bytes h);
  write_other = write-other;
  write_interest = λ k fd e i bytes. refl;
  so_error_sent = λ k fd i. refl;
  so_error_interest = λ k fd e i. refl;
  write_shut = λ k fd i bytes. refl;
  ctl_shut = λ k e fd i op v. refl;
  shutdown_sent = λ k fd i. refl;
  shutdown_shut = λ k fd e. shutdown-shut k fd;
  shutdown_interest = λ k fd e i. refl;
  ctl_add_interest = λ k e fd v h. ctl-interest k e fd ctl_add v;
  ctl_mod_interest = λ k e fd v h. ctl-interest k e fd ctl_mod v;
  ctl_del_interest = λ k e fd v h. ctl-interest k e fd ctl_del v;
  ctl_del_registered = λ k e fd v w h. refl;
  ctl_failed = λ k e fd i op v h. absurd (succeeds k e fd op v h);
  ctl_other = ctl-other;
  ctl_sent = λ k e fd i op v. refl;
  wait_count = wait-count;
  wait_registered = wait-registered;
  wait_interest = λ k e room timeout j i. refl;
}
