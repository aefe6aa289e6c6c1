-- ===== src/Acceptor/Tests.antt =====
-- The theorems on the acceptor at concrete states: a client waits, and gets descriptor 9.
use moduo_write.Common.{ℕ, ◌≡◌, refl, true, false, none, some, [], ◌∷◌, arith, done, Ensures}
use moduo_write.Common.Dict.{lookup}
use moduo_write.System.{mask_zero}
use moduo_write.System.Net.{SockAddr}
use moduo_write.System.Toy.{Toy, fresh, toy, toy_laws}
use moduo_write.System.ToyNet.{toy_net, toy_net_laws}
use moduo_write.EventLoop.{EventLoop}
use moduo_write.Channel.{k_new}
use moduo_write.Poller.{Poller}
use moduo_write.Poller.Tracking.{Tracks}
use moduo_write.Server.{TcpServer, Process, new_connection}
use moduo_write.Server.Lifecycle.{Inv}
use moduo_write.Acceptor.{Acceptor, listen, handle_read}
use moduo_write.Acceptor.Accepting.{handle_read-no_leak, handle_read-TakenBy, TakenBy, with_kernel}
use moduo_write.Acceptor.Listening.{Listening, listen-Listening}

abbrev client : SockAddr
client = record { sin_family = 2; sin_port = 36895; sin_addr = 16777343 }

-- A client waits.
abbrev called : Toy
called = record (fresh 2) { arrivals = (9, client) ∷ [] }

abbrev acceptor : Acceptor
acceptor = record {
  accept_socket = record { sockfd = 5 };
  accept_channel = record {
    address = 2;
    fd = 5;
    events = mask_zero;
    revents = mask_zero;
    index = k_new;
    tie = 0;
    tied = false;
  };
  listenning = false;
}

abbrev poller : Poller
poller = record { epollfd = 3; channels = []; capacity = 16 }

abbrev io_loop : EventLoop
io_loop = record {
  looping = true;
  quit = false;
  calling_pending_functors = false;
  thread_id = 2;
  poller = poller;
  wakeup_fd = 4;
  pending_functors = [];
}

abbrev server : TcpServer
server = record {
  base_loop = 100;
  thread_pool = record {
    base_loop = 100;
    started = true;
    num_threads = 1;
    next = 0;
    threads = 0 ∷ [];
    loops = 200 ∷ [];
  };
  next_conn_id = 1;
  started = 1;
  connections = [];
}

abbrev process : Process Toy
process = record {
  server = server;
  loops = (100, record io_loop { thread_id = 1 }) ∷ (200, io_loop) ∷ [];
  kernel = called;
  tid = 1;
}

server-Inv : Inv server
unfolding lookup
server-Inv = record { below = λ i h. refl; own = λ i c e. ground arith }

acceptor-Tracks : Tracks toy_laws poller acceptor.accept_channel called
unfolding lookup
acceptor-Tracks = record { in_map = refl; in_epoll = refl }

handle_read-no_leak_example :
    (k : Toy) × (handle_read toy_net (λ k. k) (λ k w. k) none acceptor called ≡ done k)
    × ((i : ℕ) → k.is_open i ≡ called.is_open i)
handle_read-no_leak_example =
    handle_read-no_leak toy_net_laws (λ k. k) (λ k w. k) (λ k w. refl) acceptor called

handle_read-TakenBy_example :
    (p' : Process Toy) × (handle_read toy_net
        (λ p. p.kernel)
        with_kernel
        (some (λ connfd peer. new_connection toy (λ f. done) 600 connfd))
        acceptor
        process
      ≡ done p')
    × Inv p'.server
    × TakenBy toy_net_laws 600 io_loop process p' (toy_net.accept4 called 5).0
unfolding lookup
handle_read-TakenBy_example =
    handle_read-TakenBy toy_net_laws (λ f. done) 600 acceptor process io_loop server-Inv
      (omega arith) (omega arith) refl refl

listen-Listening_example :
    Ensures (Listening toy_net_laws) (listen toy_net toy poller acceptor called)
listen-Listening_example =
    listen-Listening toy_net_laws mask_zero poller acceptor called acceptor-Tracks
