-- ===== src/EventLoop/Creation/Tests.antt =====
-- The theorems on the life of a loop in the small kernel.
use moduo_write.Common.{
  ◌≡◌, true, false, none, some, [], ◌∷◌, ◌==◌, ◌&&◌, if◌then◌else◌, exited, Ensures,
}
use moduo_write.System.{mask_zero}
use moduo_write.System.Toy.{Toy, fresh, toy, toy_laws}
use moduo_write.System.ToyFds.{toy_fds, toy_fds_laws}
use moduo_write.Channel.{k_added, read_event}
use moduo_write.EventLoop.Creation.{Built, new}
use moduo_write.EventLoop.Creation.Ownership.{Ready, Refused, new-Ready, new-exited}

new-Ready_example :
    Ensures (Ready toy_laws 100 7) (new toy_fds toy false 7 100 50 0 none (fresh 2))
    × (new toy_fds toy false 7 100 50 0 none (fresh 2) ≡ exited
        → Refused toy_laws toy_fds_laws 50 (fresh 2))
new-Ready_example = new-Ready toy_laws toy_fds_laws 7 100 50 0 (fresh 2)

new-exited_example : new toy_fds toy true 7 101 51 7 (some 100) (fresh 2) ≡ exited
new-exited_example = new-exited toy_laws toy_fds true 7 101 51 7 100 (fresh 2)

abbrev built : Built Toy
built = record {
  loop = record {
    looping = false;
    quit = true;
    calling_pending_functors = false;
    thread_id = 7;
    poller = record { epollfd = 3; channels = (4, 50) ∷ []; capacity = 16 };
    wakeup_fd = 4;
    pending_functors = [];
  };
  wakeup_channel = record {
    address = 50;
    fd = 4;
    events = read_event;
    revents = mask_zero;
    index = k_added;
    tie = 0;
    tied = false;
  };
  current = some 100;
  cached_tid = 7;
  kernel = record (fresh 2) {
    interest =
        λ e i. if (e == 3) && (i == 4) then some (record { mask = read_event; ptr = 50 }) else none;
  };
}
