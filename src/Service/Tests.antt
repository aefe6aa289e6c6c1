-- ===== src/Service/Tests.antt =====
-- The theorems on the assembled server at a concrete process: one loop, one connection, an end of stream.
use moduo_write.Common.{
  some-injective, subst, length, ◌+◌, ◌*◌, ◌<◌, zero, suc, take, ap, ℕ, ◌≡◌, refl, true, none, some,
  [], ◌∷◌, arith, done, bind, Ensures,
}
use moduo_write.Common.Dict.{lookup, insert}
use moduo_write.System.Toy.{Toy, toy, toy_laws}
use moduo_write.System.{got}
use moduo_write.Connection.Receiving.{read_result}
use moduo_write.EventLoop.{EventLoop}
use moduo_write.Connection.{World, k_connected, handle_read}
use moduo_write.Connection.Invariant.{Inv}
use moduo_write.Connection.Sample.{
  channel, no_bytes, no_bytes-IsValid, conn_in, loop_with, kernel_of,
}
use moduo_write.Server.{TcpServer, Process, run_in}
use moduo_write.Server
use moduo_write.ThreadPool.{get_next_loop}
use moduo_write.Connection.{connect_established, set_state, on_channel, call}
use moduo_write.Poller.{enable_reading, update_channel, update_by, update, ctl_result}
use moduo_write.Channel.{tie_to}
use moduo_write.Channel
use moduo_write.Buffer
use moduo_write.Server.Lifecycle
use moduo_write.Service.{
  exec, ConnObject, Store, Memory, UserCallbacks, memory_sys, conn_callbacks, world_of, on_conn,
  do_pending_functors, new_connection,
}
use moduo_write.Service.Frames.{Aside}
use moduo_write.Service.Removal.{memory_laws}
use moduo_write.Service.Closing.{handle_read-Gone}
use moduo_write.Service.Closing
use moduo_write.Service.Session.{HasEnded, Gone, comes_and_goes}
use moduo_write.Buffer.{extra_size}
use moduo_write.Buffer.Contents.{max_size}
use moduo_write.System.{ctl_add, mask_zero}
use moduo_write.Channel.{read_event, k_added}
use moduo_write.Connection.{new}
use moduo_write.Service.Opening.{IsJoined, new_connection-IsJoined}
use moduo_write.Service.Ending.{Ended, end_of_stream-Ended}

abbrev callbacks : UserCallbacks Toy
callbacks = record {
  connection_callback = some done;
  message_callback = some done;
  write_complete_callback = none;
  thread_init_callback = none;
}

-- The loop is that of thread 9, and knows the channel of descriptor 5.
abbrev loop : EventLoop
loop = loop_with (record { epollfd = 3; channels = (5, 2) ∷ []; capacity = 16 })

abbrev server : TcpServer
server = record {
  base_loop = 100;
  thread_pool = record {
    base_loop = 100;
    started = true;
    num_threads = 0;
    next = 0;
    threads = [];
    loops = [];
  };
  next_conn_id = 2;
  started = 1;
  connections = (1, record { id = 1; address = 1; sockfd = 5; loop = 100 }) ∷ [];
}

abbrev object : ConnObject
object = record { number = 1; conn = conn_in k_connected channel no_bytes }

-- The client has closed its side.
abbrev process : Process (Store Toy)
process = record {
  server = server;
  loops = (100, loop) ∷ [];
  kernel = record {
    kernel = record (kernel_of channel) { incoming = [] };
    rest = (1, object) ∷ [];
  };
  tid = 9;
}

server-Inv : Lifecycle.Inv server
unfolding lookup
server-Inv = record { below = λ i h. ground arith; own = λ i c e. ground arith }

-- Toy's `done` does nothing.
nothing-Aside : (w : World (Memory Toy)) → Aside w w
nothing-Aside w = record {
  address = refl;
  fd = refl;
  rest = refl;
  queue = refl;
  thread = refl;
  tid = refl;
}

open-Inv : Inv (memory_laws toy_laws) (world_of process object.conn loop)
unfolding lookup
open-Inv = record {
  input = no_bytes-IsValid;
  output = no_bytes-IsValid;
  tracked = record { in_map = refl; in_epoll = refl };
  other_fd = omega arith;
  registered = (refl, refl, refl);
}

nothing_more : (n : ℕ) → take {A = ℕ} n [] ≡ []
nothing_more zero = refl
nothing_more (suc n) = refl

stream_ends : read_result (memory_laws toy_laws) (world_of process object.conn loop) ≡ got []
stream_ends = ap got (nothing_more _)

handle_read-Gone_example :
    Ensures (Closing.Gone toy_laws callbacks 1 (world_of process object.conn loop)) (
      handle_read
        (memory_sys toy)
        (conn_callbacks toy callbacks 1)
        (world_of process object.conn loop))
handle_read-Gone_example =
    handle_read-Gone toy_laws callbacks 1 done (world_of process object.conn loop) refl
      (λ w c. (c, nothing-Aside w)) open-Inv tt refl server-Inv (omega arith) stream_ends

end_of_stream-Ended_example : Ensures (Ended toy_laws callbacks (λ f. done) 1 1 server) (
    bind
      (on_conn 1
        (λ number. handle_read (memory_sys toy) (conn_callbacks toy callbacks number))
        process)
      (do_pending_functors toy callbacks (λ f. done)))
unfolding lookup
end_of_stream-Ended_example =
    end_of_stream-Ended toy_laws callbacks (λ f. done) done 1 process object loop refl
      (λ w c. (c, nothing-Aside w)) server-Inv refl refl refl refl refl open-Inv tt (omega arith)
      stream_ends

-- A client on descriptor 8.
new_connection-IsJoined_example :
    Ensures
      (IsJoined toy_laws 600 8 process loop)
      (new_connection toy callbacks (λ f. done) 600 601 8 process)
unfolding lookup
new_connection-IsJoined_example =
    new_connection-IsJoined toy_laws callbacks (λ f. done) done 600 601 8 process loop refl
      (λ w e. (e, nothing-Aside w)) server-Inv (omega arith) refl refl refl refl
      (record { unmapped = refl; silent = refl; other_fd = omega arith })

-- The process when that client has been taken.
abbrev taken : Process (Store Toy)
taken = record {
  server = record server {
    next_conn_id = 3;
    connections =
        (1, record { id = 1; address = 1; sockfd = 5; loop = 100 })
        ∷ (2, record { id = 2; address = 600; sockfd = 8; loop = 100 })
        ∷ [];
  };
  loops =
      (100, loop_with (record { epollfd = 3; channels = (5, 2) ∷ (8, 601) ∷ []; capacity = 16 }))
      ∷ [];
  kernel = record {
    kernel =
        (toy.epoll_ctl process.kernel.kernel 3 ctl_add 8
          (record { mask = read_event; ptr = 601 })).1;
    rest =
        (1, object)
        ∷ (
          600,
          record {
            number = 2;
            conn = record (new 600 601 8) {
              state = k_connected;
              channel = record {
                address = 601;
                fd = 8;
                events = read_event;
                revents = mask_zero;
                index = k_added;
                tie = 600;
                tied = true;
              };
            };
          },
        )
        ∷ [];
  };
  tid = 9;
}

took : new_connection toy callbacks (λ f. done) 600 601 8 process ≡ done taken
unfolding lookup insert new_connection exec on_conn Server.new_connection run_in get_next_loop
    connect_established set_state on_channel tie_to enable_reading update_channel update_by update
    ctl_result call new Channel.new Buffer.new conn_callbacks
took = refl

taken-HasEnded : HasEnded toy_laws callbacks (λ f. done) 600 taken
unfolding lookup new Buffer.new
taken-HasEnded = record {
  room = λ o e.
      subst (λ o'. length o'.conn.input_buffer.storage + 2 * extra_size < max_size)
        (some-injective e) (omega arith);
  ends = λ o l e at. ap got (nothing_more _);
}

comes_and_goes_example : Ensures (Gone toy_laws callbacks (λ f. done) 600 process taken) (
    bind
      (on_conn 600 (λ n. handle_read (memory_sys toy) (conn_callbacks toy callbacks n)) taken)
      (do_pending_functors toy callbacks (λ f. done)))
unfolding lookup
comes_and_goes_example =
    comes_and_goes toy_laws callbacks (λ f. done) done 600 601 8 process taken loop refl
      (λ w e. (e, nothing-Aside w)) (λ w c. (c, nothing-Aside w)) server-Inv (omega arith) refl refl
      refl refl refl (record { unmapped = refl; silent = refl; other_fd = omega arith }) took
      taken-HasEnded
