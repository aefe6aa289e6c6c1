-- ===== src/Poller/Tests.antt =====
-- The theorems on registration at concrete channels.
use moduo_write.Common.{
  ℕ, List, ◌++◌, map, Mem, ◌≡◌, refl, ◌↔◌, ◌≢◌, true, false, none, some, [], ◌∷◌, arith, ◌==◌, ◌&&◌,
  if◌then◌else◌, done,
}
use moduo_write.Common.Dict.{lookup, insert, erase}
use moduo_write.System.{Interest, mask_zero, ctl_add, ctl_del}
use moduo_write.System.Toy.{Toy, fresh, toy, toy_laws}
use moduo_write.Channel.{Channel, k_new, k_added, k_deleted, read_event, set_index}
use moduo_write.Poller.{
  Poller, has_channel, ctl_result, update, update_by, update_channel, remove_channel, Channels,
  poll,
}
use moduo_write.Poller.Polling.{events_of}
use moduo_write.Poller.Registry.{Registry, IsAlive, poll-known}
use moduo_write.Poller.Tracking.{
  TracksAs, Tracks, has_channel-Tracks, update_channel-Tracks, remove_channel-Tracks,
  update_channel-other,
}

abbrev reader : Channel
reader = record {
  address = 2;
  fd = 5;
  events = read_event;
  revents = mask_zero;
  index = k_added;
  tie = 1;
  tied = true;
}

abbrev poller : Poller
poller = record { epollfd = 3; channels = (5, 2) ∷ []; capacity = 16 }

abbrev kernel : Toy
kernel = record (fresh 2) {
  interest =
      λ e i. if (e == 3) && (i == 5) then some (record { mask = read_event; ptr = 2 }) else none;
}

-- It is to wait for nothing any more, and the poller does not know it yet.
abbrev silenced : Channel
silenced = record reader { events = mask_zero }

-- Another channel, not registered.
abbrev newcomer : Channel
newcomer = record reader { address = 3; fd = 6; index = k_new }

silenced-TracksAs : TracksAs toy_laws read_event poller silenced kernel
unfolding lookup
silenced-TracksAs = record { in_map = refl; in_epoll = refl }

reader-TracksAs : TracksAs toy_laws read_event poller reader kernel
unfolding lookup
reader-TracksAs = record { in_map = refl; in_epoll = refl }

abbrev after_silenced : Toy
after_silenced = (toy.epoll_ctl kernel 3 ctl_del 5 (record { mask = mask_zero; ptr = 2 })).1

update_channel-Tracks_example :
    Tracks toy_laws poller (set_index silenced k_deleted) after_silenced
    × (set_index silenced k_deleted ≡ set_index silenced k_deleted)
    × (poller.epollfd ≡ poller.epollfd)
unfolding update_channel update_by update ctl_result
update_channel-Tracks_example =
    update_channel-Tracks toy_laws read_event poller silenced kernel silenced-TracksAs {p' = poller}
      {c' = set_index silenced k_deleted} {k' = after_silenced} refl

has_channel-Tracks_example : (has_channel poller reader ≡ true) ↔ (reader.index ≢ k_new)
has_channel-Tracks_example =
    has_channel-Tracks toy_laws read_event poller reader kernel reader-TracksAs

remove_channel-Tracks_example :
    let p' = record poller { channels = erase 5 poller.channels } in
    (k' : Toy) × (remove_channel toy poller reader kernel ≡ done (p', set_index reader k_new, k'))
    × Tracks toy_laws p' (set_index reader k_new) k'
    × (has_channel p' (set_index reader k_new) ≡ false)
remove_channel-Tracks_example =
    remove_channel-Tracks toy_laws read_event poller reader kernel reader-TracksAs

abbrev joined : Poller
joined = record poller { channels = insert 6 3 poller.channels }

abbrev after_joined : Toy
after_joined = (toy.epoll_ctl kernel 3 ctl_add 6 (record { mask = read_event; ptr = 3 })).1

update_channel-other_example : TracksAs toy_laws read_event joined reader after_joined
unfolding update_channel update_by update ctl_result
update_channel-other_example =
    update_channel-other toy_laws read_event poller newcomer reader kernel (omega arith)
      reader-TracksAs {p' = joined} {c' = set_index newcomer k_added} {k' = after_joined} refl

abbrev channels : Channels
channels = (2, reader) ∷ []

kernel-Registry : Registry toy_laws poller kernel
unfolding lookup
kernel-Registry fd v e = ground arith

channels-IsAlive : IsAlive toy_laws poller channels
unfolding lookup
channels-IsAlive fd a e = ground arith

-- The event for descriptor 5 is reported.
poll-known_example :
    let (r, k') = toy.epoll_wait kernel 3 16 10000 in
    (x : Poller × Channels × List ℕ) × (poll toy poller 10000 channels [] kernel
      ≡ done (x.0, x.1, x.2, k'))
    × Registry toy_laws x.0 k'
    × IsAlive toy_laws x.0 x.1
    × (x.2 ≡ [] ++ map (λ v. v.ptr) (events_of r))
    × ((v : Interest)
        → Mem v (events_of r)
        → ∥ ((fd : ℕ) × (lookup fd x.0.channels ≡ some v.ptr)) ∥₁)
poll-known_example =
    poll-known toy_laws poller 10000 channels [] kernel (omega arith) kernel-Registry
      channels-IsAlive
