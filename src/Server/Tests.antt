-- ===== src/Server/Tests.antt =====
-- The theorems on the server at a concrete process: a base loop and two loops of the pool.
use moduo_write.Common.{
  zero, suc, ◌<◌, get_or, ℕ, ◌++◌, ◌≡◌, ◌≢◌, refl, true, false, some, none, [], ◌∷◌, arith, done,
}
use moduo_write.Common.Dict.{lookup, insert, erase}
use moduo_write.System.Toy.{Toy, fresh, toy}
use moduo_write.EventLoop.{
  queue_in_loop, wakes, EventLoop, user, connect_established, connect_destroyed, push_functor,
  wakeup,
}
use moduo_write.Server.{
  queue_in, run_in, remove_connection_in_loop, conn_name, ServerConn, TcpServer, Process, new_conn,
  new_connection, remove_connection,
}
use moduo_write.Server.Lifecycle.{Inv, new_connection-handed_over, remove_connection-Removed}
use moduo_write.System.ToyLibc.{toy_libc, toy_libc_laws}
use moduo_write.InetAddress.{InetAddress, colon, to_ip, to_port}
use moduo_write.InetAddress.RoundTrip.{IsInet, to_ip_port-fits}
use moduo_write.Server.Names.{conn_name-ne}
use moduo_write.Server.History.{
  Running, IsElsewhere, History, begins, accepts, removes, destructions, IsDistinct, AreGone,
}
use moduo_write.Server.History.Once.{removed_once}
use moduo_write.ThreadPool.{get_next_loop}

abbrev loop_of : ℕ → EventLoop
loop_of thread = record {
  looping = true;
  quit = false;
  calling_pending_functors = false;
  thread_id = thread;
  poller = record { epollfd = 3; channels = []; capacity = 16 };
  wakeup_fd = 4;
  pending_functors = user 1 ∷ [];
}

abbrev first_conn : ServerConn
first_conn = record { id = 1; address = 500; sockfd = 7; loop = 100 }

abbrev server : TcpServer
server = record {
  base_loop = 100;
  thread_pool = record {
    base_loop = 100;
    started = true;
    num_threads = 2;
    next = 1;
    threads = 0 ∷ 1 ∷ [];
    loops = 200 ∷ 201 ∷ [];
  };
  next_conn_id = 2;
  started = 1;
  connections = (1, first_conn) ∷ [];
}

abbrev process : Process Toy
process = record {
  server = server;
  loops = (100, loop_of 1) ∷ (200, loop_of 2) ∷ (201, loop_of 3) ∷ [];
  kernel = fresh 2;
  tid = 1;
}

server-Inv : Inv server
unfolding lookup
server-Inv = record { below = λ i h. ground arith; own = λ i c e. ground arith }

abbrev joined_loop : EventLoop
joined_loop = push_functor (connect_established 600) (loop_of 3)

new_connection-handed_over_example :
    (p' : Process Toy) × (new_connection toy (λ f. done) 600 8 process ≡ done p')
    × Inv p'.server
    × (lookup 2 server.connections ≡ none)
    × (lookup 2 p'.server.connections ≡ some (new_conn 600 8 server))
    × ((i : ℕ) → 2 ≢ i → lookup i p'.server.connections ≡ lookup i server.connections)
    × (lookup 201 p'.loops ≡ some joined_loop)
    × (p'.kernel ≡ wakeup toy (loop_of 3) (fresh 2))
unfolding lookup
new_connection-handed_over_example =
    new_connection-handed_over toy (λ f. done) 600 8 process (loop_of 3) server-Inv (omega arith)
      (omega arith) refl refl

remove_connection-Removed_example :
    (p' : Process Toy) × (remove_connection toy first_conn process ≡ done p')
    × Inv p'.server
    × (lookup 1 p'.server.connections ≡ none)
    × ((i : ℕ) → 1 ≢ i → lookup i p'.server.connections ≡ lookup i server.connections)
    × (lookup 100 p'.loops ≡ some (push_functor (connect_destroyed 500) (loop_of 1)))
    × (p'.kernel ≡ fresh 2)
unfolding lookup
remove_connection-Removed_example =
    remove_connection-Removed toy 1 first_conn process (loop_of 1) server-Inv refl refl refl

abbrev address : InetAddress
address = record { addr = record { sin_family = 2; sin_port = 36895; sin_addr = 16777343 } }

address-IsInet : IsInet address.addr
address-IsInet = record { family = refl; port = omega arith; address = omega arith }

conn_name-ne_example :
    conn_name toy_libc.decimal
      (83 ∷ [])
      (to_ip toy_libc address ++ colon ∷ toy_libc.decimal (to_port toy_libc address))
      3
    ≢ conn_name toy_libc.decimal
        (83 ∷ [])
        (to_ip toy_libc address ++ colon ∷ toy_libc.decimal (to_port toy_libc address))
        4
conn_name-ne_example =
    conn_name-ne toy_libc_laws (83 ∷ [])
      (to_ip toy_libc address ++ colon ∷ toy_libc.decimal (to_port toy_libc address)) address 3 4
      address-IsInet (to_ip_port-fits toy_libc_laws address address-IsInet).0 (omega arith)
      (omega arith) (omega arith)

process-Running : Running process
unfolding lookup
process-Running = record {
  inv = server-Inv;
  valid = omega arith;
  base = (loop_of 1, refl, refl);
  pool = λ i h. elsewhere i h;
}
  where
    elsewhere : (i : ℕ) → i < 2 → IsElsewhere process (get_or (200 ∷ 201 ∷ []) i 0)
    elsewhere zero h = (loop_of 2, refl, λ e. omega (arith, e))
    elsewhere (suc zero) h = (loop_of 3, refl, λ e. omega (arith, e))
    elsewhere (suc (suc i)) h = absurd (omega arith)

-- A client comes, and the first connection goes.
abbrev with_second : Process Toy
with_second = record process {
  server = record server {
    thread_pool = record server.thread_pool { next = 0 };
    next_conn_id = 3;
    connections = (1, first_conn) ∷ (2, new_conn 600 8 server) ∷ [];
  };
  loops = (100, loop_of 1) ∷ (200, loop_of 2) ∷ (201, joined_loop) ∷ [];
  kernel = wakeup toy (loop_of 3) (fresh 2);
}

abbrev without_first : Process Toy
without_first = record with_second {
  server = record with_second.server { connections = (2, new_conn 600 8 server) ∷ [] };
  loops =
      (100, push_functor (connect_destroyed 500) (loop_of 1))
      ∷ (200, loop_of 2)
      ∷ (201, joined_loop)
      ∷ [];
}

first_gone : History toy (λ f. done) process (first_conn ∷ []) without_first
unfolding new_connection remove_connection remove_connection_in_loop run_in queue_in queue_in_loop
    wakes lookup insert erase get_next_loop
first_gone =
    removes [] with_second without_first 1 first_conn
      (accepts [] process with_second 600 8 begins refl) refl refl

removed_once_example :
    Running without_first
    × IsDistinct (first_conn ∷ [])
    × AreGone (first_conn ∷ []) without_first.server
    × (l : EventLoop) × (lookup 100 without_first.loops ≡ some l)
    × (l.pending_functors ≡ (user 1 ∷ []) ++ destructions (first_conn ∷ []))
unfolding lookup
removed_once_example =
    removed_once toy (λ f. done) (loop_of 1) process without_first (first_conn ∷ []) process-Running
      refl first_gone
