-- ===== src/Service/Object.antt =====
-- TcpServer.h with TcpConnection.h: the objects of a server's process, and how they reach each other.
use moduo_write.Common.{ℕ, Option, none, some, List, Outcome, done, undefined, bind}
use moduo_write.Common.Dict.{lookup, insert}
use moduo_write.System.Part.{KernelWith}
use moduo_write.EventLoop.{
  EventLoop, Functor, write_complete, high_water_mark, send_in_loop, shutdown_in_loop,
  connect_established, connect_destroyed, remove_connection_in_loop, listen, user,
}
use moduo_write.EventLoop
use moduo_write.Connection.{TcpConnection, World}
use moduo_write.Server.{ServerConn, TcpServer, Process}

-- A connection with the number in its name.
pub record ConnObject : Type 0 where
  pub number : ℕ
  pub conn : TcpConnection

-- The connections by address.
abbrev pub Objects : Type 0
Objects = List (ℕ × ConnObject)

abbrev pub Store : Type 0 → Type 0
Store K = KernelWith K Objects

-- What the process holds while a connection runs, besides the connection's own loop and the kernel.
-- That loop is the server's base loop, whose entry in `loops` is then out of date.
pub record Rest : Type 0 where
  pub server : TcpServer
  pub loops : List (ℕ × EventLoop)
  pub objects : Objects

abbrev pub Memory : Type 0 → Type 0
Memory K = KernelWith K Rest

-- The callbacks that the user gives to the server.
pub record UserCallbacks (K : Type 0) : Type 0 where
  pub connection_callback : Option (World (Memory K) → Outcome (World (Memory K)))
  pub message_callback : Option (World (Memory K) → Outcome (World (Memory K)))
  pub write_complete_callback : Option (World (Memory K) → Outcome (World (Memory K)))
  pub thread_init_callback : Option (ℕ → Process (Store K) → Outcome (Process (Store K)))

-- Their setters.
module _ {K : Type 0} where
  pub set_connection_callback :
      (World (Memory K) → Outcome (World (Memory K))) → UserCallbacks K → UserCallbacks K
  set_connection_callback f u = record u { connection_callback = some f }

  pub set_message_callback :
      (World (Memory K) → Outcome (World (Memory K))) → UserCallbacks K → UserCallbacks K
  set_message_callback f u = record u { message_callback = some f }

  pub set_write_complete_callback :
      (World (Memory K) → Outcome (World (Memory K))) → UserCallbacks K → UserCallbacks K
  set_write_complete_callback f u = record u { write_complete_callback = some f }

  pub set_thread_init_callback :
      (ℕ → Process (Store K) → Outcome (Process (Store K))) → UserCallbacks K → UserCallbacks K
  set_thread_init_callback f u = record u { thread_init_callback = some f }

module _ {K : Type 0} where
  -- The process as the server sees it, and as a connection does that runs in the loop `l`.
  abbrev pub process_of : World (Memory K) → Process (Store K)
  process_of w = record {
    server = w.kernel.rest.server;
    loops = insert w.kernel.rest.server.base_loop w.loop w.kernel.rest.loops;
    kernel = record { kernel = w.kernel.kernel; rest = w.kernel.rest.objects };
    tid = w.tid;
  }

  abbrev pub world_of : Process (Store K) → TcpConnection → EventLoop → World (Memory K)
  world_of p c l = record {
    conn = c;
    loop = l;
    kernel = record {
      kernel = p.kernel.kernel;
      rest = record { server = p.server; loops = p.loops; objects = p.kernel.rest };
    };
    tid = p.tid;
  }

  -- The base loop with what its functors can reach, and back.
  abbrev pub thread_of : Process (Store K) → EventLoop → EventLoop.Thread (Memory K)
  thread_of p l = record {
    loop = l;
    kernel = record {
      kernel = p.kernel.kernel;
      rest = record { server = p.server; loops = p.loops; objects = p.kernel.rest };
    };
  }

  abbrev pub process_at : ℕ → EventLoop.Thread (Memory K) → Process (Store K)
  process_at tid t = record {
    server = t.kernel.rest.server;
    loops = insert t.kernel.rest.server.base_loop t.loop t.kernel.rest.loops;
    kernel = record { kernel = t.kernel.kernel; rest = t.kernel.rest.objects };
    tid = tid;
  }

  -- A method of the server, called from a connection.
  unfoldable pub in_server :
      (Process (Store K) → Outcome (Process (Store K)))
      → World (Memory K)
      → Outcome (World (Memory K))
  in_server f w = bind (f (process_of w)) λ p. elim (lookup p.server.base_loop p.loops) [
    | none ↦ undefined
    | some l ↦ done (world_of p w.conn l)
  ]

  -- The process when the connection at `address` has run.
  abbrev pub stored : ℕ → ℕ → World (Memory K) → Process (Store K)
  stored address number w = record (process_of w) {
    kernel = record {
      kernel = w.kernel.kernel;
      rest = insert address (record { number = number; conn = w.conn }) w.kernel.rest.objects;
    };
  }

  -- A method of the connection at `address`, called from its loop; without such a connection, or
  -- without the loop, the pointer dangles.
  unfoldable pub on_conn :
      ℕ
      → (ℕ → World (Memory K) → Outcome (World (Memory K)))
      → Process (Store K)
      → Outcome (Process (Store K))
  on_conn address f p = elim (lookup address p.kernel.rest) [
    | none ↦ undefined
    | some o ↦ elim (lookup p.server.base_loop p.loops) [
      | none ↦ undefined
      | some l ↦ bind (f o.number (world_of p o.conn l)) λ w. done (stored address o.number w)
    ]
  ]

  -- `shared_from_this()`, as the server uses it.
  abbrev pub this_conn : ℕ → World (Memory K) → ServerConn
  this_conn number w = record {
    id = number;
    address = w.conn.address;
    sockfd = w.conn.channel.fd;
    loop = w.kernel.rest.server.base_loop;
  }
