-- ===== src/System.antt =====
-- The system calls that the library makes, as a parameter of the model: none of this is code of the
-- repository. `K` is the state of the kernel; a call returns its result and the new state.
pub mod Toy
pub mod Part
pub mod Net
pub mod ToyNet
pub mod Fds
pub mod ToyFds
pub mod Libc
pub mod ToyLibc
use moduo_write.Common.{
  ℕ, ◌≤◌, ◌≡◌, ◌≢◌, Bool, true, false, ◌&&◌, ◌||◌, not, Option, none, some, List, ◌++◌, length,
  take, Mem,
}

-- The bits of an `epoll_event` mask that the library names. Other bits are never looked at.
pub record Mask : Type 0 where
  pub epollin : Bool
  pub epollpri : Bool
  pub epollout : Bool
  pub epollerr : Bool
  pub epollhup : Bool

abbrev pub mask_zero : Mask
mask_zero = record {
  epollin = false;
  epollpri = false;
  epollout = false;
  epollerr = false;
  epollhup = false;
}

-- `a | b`, `a & b` and `~ a`.
abbrev pub mask_or : Mask → Mask → Mask
mask_or a b = record {
  epollin = a.epollin || b.epollin;
  epollpri = a.epollpri || b.epollpri;
  epollout = a.epollout || b.epollout;
  epollerr = a.epollerr || b.epollerr;
  epollhup = a.epollhup || b.epollhup;
}

abbrev pub mask_and : Mask → Mask → Mask
mask_and a b = record {
  epollin = a.epollin && b.epollin;
  epollpri = a.epollpri && b.epollpri;
  epollout = a.epollout && b.epollout;
  epollerr = a.epollerr && b.epollerr;
  epollhup = a.epollhup && b.epollhup;
}

abbrev pub mask_not : Mask → Mask
mask_not a = record {
  epollin = not a.epollin;
  epollpri = not a.epollpri;
  epollout = not a.epollout;
  epollerr = not a.epollerr;
  epollhup = not a.epollhup;
}

-- A mask as a condition: some bit is set.
abbrev pub is_set : Mask → Bool
is_set a = a.epollin || (a.epollpri || (a.epollout || (a.epollerr || a.epollhup)))

abbrev pub in_bit : Mask
in_bit = record mask_zero { epollin = true }

abbrev pub pri_bit : Mask
pri_bit = record mask_zero { epollpri = true }

abbrev pub out_bit : Mask
out_bit = record mask_zero { epollout = true }

abbrev pub err_bit : Mask
err_bit = record mask_zero { epollerr = true }

abbrev pub hup_bit : Mask
hup_bit = record mask_zero { epollhup = true }

-- Values of `errno` that the library compares with (Linux).
abbrev pub eintr : ℕ
eintr = 4

abbrev pub ewouldblock : ℕ
ewouldblock = 11

abbrev pub epipe : ℕ
epipe = 32

abbrev pub econnreset : ℕ
econnreset = 104

-- A call that returns a count, or -1 with `errno`.
pub data IoResult : Type 0 where
  count : ℕ → IoResult
  failed : ℕ → IoResult

-- `readv`: the bytes read, which fill the vectors in order, or -1 with `errno`.
pub data ReadResult : Type 0 where
  got : List ℕ → ReadResult
  read_failed : ℕ → ReadResult

pub data CtlOp : Type 0 where
  ctl_add ctl_mod ctl_del : CtlOp

-- What epoll keeps for a descriptor: the mask and `data.ptr`, the address of a channel.
pub record Interest : Type 0 where
  pub mask : Mask
  pub ptr : ℕ

-- `epoll_wait`: the events that it stored, with the mask and `data.ptr` of each, or -1 with `errno`.
pub data WaitResult : Type 0 where
  ready : List Interest → WaitResult
  wait_failed : ℕ → WaitResult

pub record Sys (K : Type 0) : Type 0 where
  -- `readv(fd, vec, n)`, given the total length of the vectors
  pub readv : K → ℕ → ℕ → ReadResult × K
  -- `write(fd, data, len)`
  pub write : K → ℕ → List ℕ → IoResult × K
  -- `getsockopt(fd, SOL_SOCKET, SO_ERROR, …)`, which also clears the pending error
  pub so_error : K → ℕ → IoResult × K
  -- `shutdown(fd, SHUT_WR)`; true is the result 0
  pub shutdown : K → ℕ → Bool × K
  -- `epoll_ctl(epollfd, op, fd, event)`; true is the result 0
  pub epoll_ctl : K → ℕ → CtlOp → ℕ → Interest → Bool × K
  -- `epoll_wait(epollfd, events, maxevents, timeout)`
  pub epoll_wait : K → ℕ → ℕ → ℕ → WaitResult × K

-- What the manual pages say of these calls. `sent` is the stream of bytes that a socket has taken,
-- `shut` tells whether its writing side was shut down, and `interest` is the interest list of an
-- epoll instance: observations of the kernel.
pub record SysLaws {K : Type 0} (sys : Sys K) : Type 0 where
  pub sent : K → ℕ → List ℕ
  pub shut : K → ℕ → Bool
  pub interest : K → ℕ → ℕ → Option Interest
  -- readv reads no more than the vectors hold, and sends nothing
  pub readv_count :
      (k : K) (fd room : ℕ) (bytes : List ℕ)
      → (sys.readv k fd room).0 ≡ got bytes
      → length bytes ≤ room
  pub readv_sent : (k : K) (fd room i : ℕ) → sent (sys.readv k fd room).1 i ≡ sent k i
  pub readv_interest :
      (k : K) (fd room e i : ℕ) → interest (sys.readv k fd room).1 e i ≡ interest k e i
  -- write takes a first part of the data, whose length it returns
  pub write_count :
      (k : K) (fd n : ℕ) (bytes : List ℕ)
      → (sys.write k fd bytes).0 ≡ count n
      → (n ≤ length bytes) × (sent (sys.write k fd bytes).1 fd ≡ sent k fd ++ take n bytes)
  pub write_failed :
      (k : K) (fd e : ℕ) (bytes : List ℕ)
      → (sys.write k fd bytes).0 ≡ failed e
      → sent (sys.write k fd bytes).1 fd ≡ sent k fd
  pub write_other :
      (k : K) (fd i : ℕ) (bytes : List ℕ) → fd ≢ i → sent (sys.write k fd bytes).1 i ≡ sent k i
  pub write_interest :
      (k : K) (fd e i : ℕ) (bytes : List ℕ) → interest (sys.write k fd bytes).1 e i ≡ interest k e i
  -- reading the pending error changes nothing else
  pub so_error_sent : (k : K) (fd i : ℕ) → sent (sys.so_error k fd).1 i ≡ sent k i
  pub so_error_interest : (k : K) (fd e i : ℕ) → interest (sys.so_error k fd).1 e i ≡ interest k e i
  -- only shutdown shuts the writing side down
  pub write_shut : (k : K) (fd i : ℕ) (bytes : List ℕ) → shut (sys.write k fd bytes).1 i ≡ shut k i
  pub ctl_shut :
      (k : K) (e fd i : ℕ) (op : CtlOp) (v : Interest)
      → shut (sys.epoll_ctl k e op fd v).1 i ≡ shut k i
  -- shutdown sends no data
  pub shutdown_sent : (k : K) (fd i : ℕ) → sent (sys.shutdown k fd).1 i ≡ sent k i
  pub shutdown_shut :
      (k : K) (fd : ℕ) → (sys.shutdown k fd).0 ≡ true → shut (sys.shutdown k fd).1 fd ≡ true
  pub shutdown_interest : (k : K) (fd e i : ℕ) → interest (sys.shutdown k fd).1 e i ≡ interest k e i
  -- epoll_ctl changes the entry of its own descriptor, if it succeeds, and sends nothing
  pub ctl_add_interest :
      (k : K) (e fd : ℕ) (v : Interest)
      → (sys.epoll_ctl k e ctl_add fd v).0 ≡ true
      → interest (sys.epoll_ctl k e ctl_add fd v).1 e fd ≡ some v
  pub ctl_mod_interest :
      (k : K) (e fd : ℕ) (v : Interest)
      → (sys.epoll_ctl k e ctl_mod fd v).0 ≡ true
      → interest (sys.epoll_ctl k e ctl_mod fd v).1 e fd ≡ some v
  pub ctl_del_interest :
      (k : K) (e fd : ℕ) (v : Interest)
      → (sys.epoll_ctl k e ctl_del fd v).0 ≡ true
      → interest (sys.epoll_ctl k e ctl_del fd v).1 e fd ≡ none
  -- deleting succeeds on a registered descriptor
  pub ctl_del_registered :
      (k : K) (e fd : ℕ) (v w : Interest)
      → interest k e fd ≡ some w
      → (sys.epoll_ctl k e ctl_del fd v).0 ≡ true
  pub ctl_failed :
      (k : K) (e fd i : ℕ) (op : CtlOp) (v : Interest)
      → (sys.epoll_ctl k e op fd v).0 ≡ false
      → interest (sys.epoll_ctl k e op fd v).1 e i ≡ interest k e i
  pub ctl_other :
      (k : K) (e fd i : ℕ) (op : CtlOp) (v : Interest)
      → fd ≢ i
      → interest (sys.epoll_ctl k e op fd v).1 e i ≡ interest k e i
  pub ctl_sent :
      (k : K) (e fd i : ℕ) (op : CtlOp) (v : Interest)
      → sent (sys.epoll_ctl k e op fd v).1 i ≡ sent k i
  -- epoll_wait stores no more events than asked, each of a registered descriptor
  pub wait_count :
      (k : K) (e room timeout : ℕ) (es : List Interest)
      → (sys.epoll_wait k e room timeout).0 ≡ ready es
      → length es ≤ room
  pub wait_registered :
      (k : K) (e room timeout : ℕ) (es : List Interest) (v : Interest)
      → (sys.epoll_wait k e room timeout).0 ≡ ready es
      → Mem v es
      → ∥ ((fd : ℕ) × (w : Interest) × (interest k e fd ≡ some w) × (w.ptr ≡ v.ptr)) ∥₁
  pub wait_interest :
      (k : K) (e room timeout j i : ℕ)
      → interest (sys.epoll_wait k e room timeout).1 j i ≡ interest k j i
