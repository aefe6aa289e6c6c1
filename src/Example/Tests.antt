-- ===== src/Example/Tests.antt =====
-- The echo server on a concrete connection, to which two bytes come in.
use moduo_write.Common.{refl, arith, done, Ensures}
use moduo_write.System.Toy.{toy, toy_laws}
use moduo_write.Connection.{handle_read}
use moduo_write.Connection.Sample.{connected, connected-Inv}
use moduo_write.Common.{[], ◌∷◌}
use moduo_write.Common.Dict.{lookup}
use moduo_write.System.Toy.{Toy}
use moduo_write.ThreadPool
use moduo_write.Connection.{World}
use moduo_write.Connection.Invariant.{Inv}
use moduo_write.Server.Lifecycle
use moduo_write.Service.{Memory, memory_sys, conn_callbacks}
use moduo_write.Service.Removal.{memory_laws}
use moduo_write.Example.Serving.{Served, user_callbacks, handle_read-Served}
use moduo_write.Example.{callbacks}
use moduo_write.Example.Echo.{Echoed, handle_read-Echoed}

handle_read-Echoed_example :
    Ensures
      (Echoed toy_laws done 900 connected)
      (handle_read toy (callbacks toy done 900) connected)
handle_read-Echoed_example =
    handle_read-Echoed toy_laws done 900 connected (λ w c. c) connected-Inv refl refl (omega arith)
      (omega arith)

-- The same connection in the server's process, where it has the number 1.
abbrev in_process : World (Memory Toy)
in_process = record {
  conn = connected.conn;
  loop = connected.loop;
  kernel = record {
    kernel = connected.kernel;
    rest = record {
      server = record {
        base_loop = 100;
        thread_pool = ThreadPool.new 100;
        next_conn_id = 2;
        started = 1;
        connections = (1, record { id = 1; address = 1; sockfd = 5; loop = 100 }) ∷ [];
      };
      loops = (100, connected.loop) ∷ [];
      objects = (1, record { number = 1; conn = connected.conn }) ∷ [];
    };
  };
  tid = 9;
}

in_process-Inv : Inv (memory_laws toy_laws) in_process
in_process-Inv = record {
  input = connected-Inv.input;
  output = connected-Inv.output;
  tracked = record {
    in_map = connected-Inv.tracked.in_map;
    in_epoll = connected-Inv.tracked.in_epoll;
  };
  other_fd = connected-Inv.other_fd;
  registered = connected-Inv.registered;
}

server-Inv : Lifecycle.Inv in_process.kernel.rest.server
unfolding lookup
server-Inv = record { below = λ i h. ground arith; own = λ i c e. ground arith }

handle_read-Served_example :
    Ensures
      (Served toy_laws 1 900 in_process)
      (handle_read (memory_sys toy) (conn_callbacks toy (user_callbacks toy 1 900) 1) in_process)
handle_read-Served_example =
    handle_read-Served toy_laws 1 900 in_process in_process-Inv refl refl server-Inv (omega arith)
      (omega arith)
