-- ===== src/Example/Main.antt =====
-- example/testserver.cc, `main`: the objects are built, the server is started and the loop runs.
use moduo_write.Common.{
  ℕ, false, Bool, Option, none, some, List, [], ◌∷◌, Outcome, done, exited, bad_call, undefined,
  bind,
}
use moduo_write.Common.Dict.{lookup, insert}
use moduo_write.System.{Sys}
use moduo_write.System.Part.{KernelWith, sys_with}
use moduo_write.System.Net.{Net}
use moduo_write.System.Fds.{Fds}
use moduo_write.System.Libc.{Libc}
use moduo_write.InetAddress
use moduo_write.Acceptor.{Acceptor, create_nonblocking_socket}
use moduo_write.Acceptor
use moduo_write.EventLoop.{EventLoop, Functor, Thread, listen, run_loop}
use moduo_write.EventLoop.Creation
use moduo_write.Server.{Process, TcpServer}
use moduo_write.Server
use moduo_write.Service.{store_sys, Store, Memory, UserCallbacks, thread_of, exec, exec_in, start}
use moduo_write.Service

-- The kernel with the server's acceptor.
abbrev pub Whole : Type 0 → Type 0
Whole K = KernelWith K Acceptor

-- "127.0.0.1", the default argument of the address.
abbrev pub localhost : List ℕ
localhost = 49 ∷ 50 ∷ 55 ∷ 46 ∷ 48 ∷ 46 ∷ 48 ∷ 46 ∷ 49 ∷ []

-- Where the objects of `main` are, by address: the loop, the channels of its eventfd and of the
-- acceptor.
pub record Places : Type 0 where
  pub base : ℕ
  pub wakeup_channel : ℕ
  pub accept_channel : ℕ

module _ {K : Type 0} (sys : Sys K) (net : Net K) where
  -- `Acceptor::listen`, which the server's `start` runs in the base loop. The functors of users do
  -- what `others` says.
  unfoldable pub listen_now : Process (Store (Whole K)) → Outcome (Process (Store (Whole K)))
  listen_now p = elim (lookup p.server.base_loop p.loops) [
    | none ↦ undefined
    | some l ↦
        bind (Acceptor.listen net sys l.poller p.kernel.kernel.rest p.kernel.kernel.kernel)
          λ (poller, a, k). done (record p {
            loops = insert p.server.base_loop (record l { poller = poller }) p.loops;
            kernel = record p.kernel { kernel = record { kernel = k; rest = a } };
          })
  ]

  unfoldable pub other_functors :
      (Functor → Process (Store (Whole K)) → Outcome (Process (Store (Whole K))))
      → Functor
      → Process (Store (Whole K))
      → Outcome (Process (Store (Whole K)))
  other_functors others listen p = listen_now p
  other_functors others f p = others f p

-- The process when the objects are there.
abbrev pub built :
    {K : Type 0} → ℕ → Creation.Built K → TcpServer → Acceptor → K → Process (Store (Whole K))
built base b server a k = record {
  server = Server.set_thread_num server 4;
  loops = (base, b.loop) ∷ [];
  kernel = record { kernel = record { kernel = k; rest = a }; rest = [] };
  tid = b.loop.thread_id;
}

module _ {K : Type 0} (sys : Sys K) (net : Net K) (fds : Fds K) (libc : Libc)
    (u : UserCallbacks (Whole K)) (places : Places)
    (others : Functor → Process (Store (Whole K)) → Outcome (Process (Store (Whole K))))
    (use_poll : Bool) (gettid : ℕ) (start_loop : ℕ → ℕ) (made : List (ℕ × EventLoop)) where
  -- `main` up to the start of the server; the pool's threads return the loops of `made`.
  unfoldable pub set_up : K → Outcome (Process (Store (Whole K)))
  set_up k =
      bind (Creation.new fds sys use_poll gettid places.base places.wakeup_channel 0 none k) λ b.
        bind
          (Service.new net (some places.base) places.accept_channel
            (InetAddress.new libc 8000 localhost).addr false b.kernel)
          λ (server, a, k').
            start (sys_with sys) u (other_functors sys net others) start_loop made
              (built places.base b server a k')

  -- `main` up to the return of `loop`; the destructors that follow are left out. `turn` is the poll and
  -- the handling of the channels; the loop runs on fuel.
  unfoldable pub main :
      (Thread (Memory (Whole K)) → Outcome (Thread (Memory (Whole K))))
      → ℕ
      → K
      → Option (Outcome (Thread (Memory (Whole K))))
  main turn fuel k = elim (set_up k) [
    | done p ↦ elim (lookup p.server.base_loop p.loops) [
      | none ↦ some undefined
      | some l ↦
          run_loop (exec_in (sys_with sys) u (other_functors sys net others) p.tid) turn fuel
            (thread_of p l)
    ]
    | exited ↦ some exited
    | bad_call ↦ some bad_call
    | undefined ↦ some undefined
  ]
