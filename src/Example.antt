-- ===== src/Example.antt =====
-- example/testserver.cc: the echo server, as its connections' callbacks.
pub mod Echo
pub mod Serving
pub mod Main
mod Tests
use moduo_write.Common.{ℕ, Option, none, some, List, Outcome, done, undefined, bind}
use moduo_write.System.{Sys}
use moduo_write.Buffer.{Buffer, retrieve_all_as_string}
use moduo_write.Server.{TcpServer}
use moduo_write.Server
use moduo_write.Connection.{TcpConnection, World, Callbacks, send, shutdown}

module _ {K : Type 0} (sys : Sys K) (close : World K → Outcome (World K)) where
  -- `onConnection` only logs.
  unfoldable pub on_connection : World K → Outcome (World K)
  on_connection w = done w

  -- The callbacks but the message callback itself, which `send` does not call. The server sets no
  -- other.
  unfoldable pub other_callbacks : Callbacks (World K)
  other_callbacks = record {
    connection_callback = some on_connection;
    message_callback = none;
    write_complete_callback = none;
    high_water_mark_callback = none;
    close_callback = some close;
  }

  -- `conn->send(msg)` and `conn->shutdown()`, where `address` is that of `msg`'s bytes.
  unfoldable pub reply : ℕ → List ℕ → World K → Outcome (World K)
  reply address msg w = bind (send sys other_callbacks address msg w) (shutdown sys)

  -- `onMessage`; `buf` is the connection's input buffer.
  unfoldable pub on_message : ℕ → World K → Outcome (World K)
  on_message address w = elim (retrieve_all_as_string w.conn.input_buffer) [
    | none ↦ undefined
    | some (msg, b) ↦ reply address msg (record w { conn = record w.conn { input_buffer = b } })
  ]

  -- What the connections get from `TcpServer`, with its `removeConnection` as `close`.
  unfoldable pub callbacks : ℕ → Callbacks (World K)
  callbacks address = record other_callbacks { message_callback = some (on_message address) }

-- The constructor, with the server's address left out: four threads.
unfoldable pub new : Option ℕ → Outcome TcpServer
new loop = bind (Server.new loop) λ server. done (Server.set_thread_num server 4)
