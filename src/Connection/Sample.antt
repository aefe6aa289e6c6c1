-- ===== src/Connection/Sample.antt =====
-- Concrete connections that the examples run on: a socket that takes at most two bytes at a time.
use moduo_write.Common.{
  refl, true, false, none, some, [], ◌∷◌, ◌++◌, arith, replicate, ◌==◌, ◌&&◌, if◌then◌else◌,
}
use moduo_write.System.{mask_or, mask_zero}
use moduo_write.System.Toy.{Toy, fresh, toy_laws}
use moduo_write.Buffer.{Buffer}
use moduo_write.Common.Dict.{lookup}
use moduo_write.Buffer.Contents.{IsValid}
use moduo_write.Channel.{Channel, k_new, k_added, read_event, write_event}
use moduo_write.Poller.{Poller}
use moduo_write.EventLoop.{EventLoop}
use moduo_write.Connection.{
  StateE, k_connecting, k_connected, k_disconnecting, TcpConnection, World,
}
use moduo_write.Connection.Invariant.{Inv}

-- A buffer with no bytes, and one with three that wait.
abbrev pub no_bytes : Buffer
no_bytes = record { storage = replicate 16 0; reader_index = 8; writer_index = 8 }

abbrev pub three_bytes : Buffer
three_bytes = record {
  storage = replicate 8 0 ++ 1 ∷ 2 ∷ 3 ∷ 0 ∷ [];
  reader_index = 8;
  writer_index = 11;
}

abbrev pub channel : Channel
channel = record {
  address = 2;
  fd = 5;
  events = read_event;
  revents = mask_zero;
  index = k_added;
  tie = 1;
  tied = true;
}

abbrev pub conn_in : StateE → Channel → Buffer → TcpConnection
conn_in s c output = record {
  address = 1;
  state = s;
  reading = true;
  channel = c;
  high_water_mark = 64;
  input_buffer = no_bytes;
  output_buffer = output;
}

abbrev pub loop_with : Poller → EventLoop
loop_with p = record {
  looping = true;
  quit = false;
  calling_pending_functors = false;
  thread_id = 9;
  poller = p;
  wakeup_fd = 4;
  pending_functors = [];
}

-- The channel registered with its events.
abbrev pub kernel_of : Channel → Toy
kernel_of c = record (fresh 2) {
  interest = λ e i.
      if (e == 3) && (i == 5) then some (record { mask = c.events; ptr = c.address }) else none;
}

abbrev pub open_world : StateE → Channel → Buffer → World Toy
open_world s c output = record {
  conn = conn_in s c output;
  loop = loop_with (record { epollfd = 3; channels = (5, 2) ∷ []; capacity = 16 });
  kernel = kernel_of c;
  tid = 9;
}

abbrev pub connected : World Toy
connected = open_world k_connected channel no_bytes

-- Three bytes of output are left, and the shutdown waits for them.
abbrev pub flushing : World Toy
flushing =
    open_world k_disconnecting (record channel { events = mask_or read_event write_event })
      three_bytes

abbrev pub connecting : World Toy
connecting = record {
  conn = conn_in k_connecting (record channel { events = mask_zero; index = k_new }) no_bytes;
  loop = loop_with (record { epollfd = 3; channels = []; capacity = 16 });
  kernel = fresh 2;
  tid = 9;
}

pub no_bytes-IsValid : IsValid no_bytes
no_bytes-IsValid = omega arith

pub three_bytes-IsValid : IsValid three_bytes
three_bytes-IsValid = omega arith

pub connected-Inv : Inv toy_laws connected
unfolding lookup
connected-Inv = record {
  input = no_bytes-IsValid;
  output = no_bytes-IsValid;
  tracked = record { in_map = refl; in_epoll = refl };
  other_fd = omega arith;
  registered = (refl, refl, refl);
}

pub flushing-Inv : Inv toy_laws flushing
unfolding lookup
flushing-Inv = record {
  input = no_bytes-IsValid;
  output = three_bytes-IsValid;
  tracked = record { in_map = refl; in_epoll = refl };
  other_fd = omega arith;
  registered = (refl, refl, refl);
}

pub connecting-Inv : Inv toy_laws connecting
unfolding lookup
connecting-Inv = record {
  input = no_bytes-IsValid;
  output = no_bytes-IsValid;
  tracked = record { in_map = refl; in_epoll = refl };
  other_fd = omega arith;
  registered = (refl, refl, refl);
}
