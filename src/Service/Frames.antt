-- ===== src/Service/Frames.antt =====
-- TcpServer.cc with TcpConnection.cc: what a connection's calls leave alone in the rest of the process.
use moduo_write.Common.{
  done, Outcome, ℕ, some, bind, false, ◌≡◌, refl, ◌∙◌, WhenDone, WhenDone-bind, done-WhenDone,
}
use moduo_write.System.{Sys}
use moduo_write.Common.Dict.{lookup}
use moduo_write.Server.{Process}
use moduo_write.Channel.{Channel, tie_to, no_events, or_events, read_event}
use moduo_write.Poller.{update_channel, remove_channel, enable_reading, disable_all}
use moduo_write.Poller.Frame.{
  update_channel-view, update_channel-fd, remove_channel-view, remove_channel-fd,
}
use moduo_write.Connection.{
  World, Callbacks, k_connected, state_eq, connect_destroyed, k_disconnected, on_channel, set_state,
}
use moduo_write.Connection.Opening.{opened}
use moduo_write.Connection.Invariant.{Inv}
use moduo_write.EventLoop.{EventLoop}
use moduo_write.System.{SysLaws}
use moduo_write.System.Part.{laws_with}
use moduo_write.Service.{ConnObject, Store, on_conn, world_of, stored, Rest, Memory, memory_sys}

module _ {K : Type 0} where
  -- A step that leaves the server, the other loops and the queue of this loop alone.
  pub record Aside (w w' : World (Memory K)) : Type 0 where
    pub address : w'.conn.address ≡ w.conn.address
    pub fd : w'.conn.channel.fd ≡ w.conn.channel.fd
    pub rest : w'.kernel.rest ≡ w.kernel.rest
    pub queue : w'.loop.pending_functors ≡ w.loop.pending_functors
    pub thread : w'.loop.thread_id ≡ w.loop.thread_id
    pub tid : w'.tid ≡ w.tid

  pub Aside-trans : {u v w : World (Memory K)} → Aside u v → Aside v w → Aside u w
  Aside-trans a b = record {
    address = b.address ∙ a.address;
    fd = b.fd ∙ a.fd;
    rest = b.rest ∙ a.rest;
    queue = b.queue ∙ a.queue;
    thread = b.thread ∙ a.thread;
    tid = b.tid ∙ a.tid;
  }

  -- A registered change of the channel's events.
  changed-Aside :
      (sys : Sys K) (g : Channel → Channel) (w : World (Memory K))
      → (g w.conn.channel).fd ≡ w.conn.channel.fd
      → WhenDone (Aside w) (on_channel (λ p c k. update_channel (memory_sys sys) p (g c) k) w)
  unfolding on_channel
  changed-Aside sys g w same =
      WhenDone-bind (Aside w)
        (update_channel (memory_sys sys) w.loop.poller (g w.conn.channel) w.kernel) _
        λ (p, c, k) e. done-WhenDone (Aside w) _ (record {
          address = refl;
          fd =
              update_channel-fd (memory_sys sys) w.loop.poller (g w.conn.channel) w.kernel e ∙ same;
          rest =
              update_channel-view (memory_sys sys) (λ s. s.rest) (λ k e d op v. refl) w.loop.poller
                (g w.conn.channel) w.kernel e;
          queue = refl;
          thread = refl;
          tid = refl;
        })

  pub close-Aside :
      (sys : Sys K) (w : World (Memory K))
      → WhenDone (Aside w) (on_channel (disable_all (memory_sys sys)) (set_state k_disconnected w))
  unfolding disable_all set_state
  close-Aside sys w w' e =
      Aside-trans
        (record { address = refl; fd = refl; rest = refl; queue = refl; thread = refl; tid = refl })
        (changed-Aside sys no_events (set_state k_disconnected w) refl w' e)

  pub opened-Aside :
      (sys : Sys K) (w : World (Memory K))
      → WhenDone (Aside w) (on_channel (enable_reading (memory_sys sys)) (opened w))
  unfolding enable_reading tie_to
  opened-Aside sys w w' e =
      Aside-trans
        (record { address = refl; fd = refl; rest = refl; queue = refl; thread = refl; tid = refl })
        (changed-Aside sys (λ c. or_events c read_event) (opened w) refl w' e)

  pub removed-Aside :
      (sys : Sys K) (w : World (Memory K))
      → WhenDone (Aside w) (on_channel (remove_channel (memory_sys sys)) w)
  unfolding on_channel
  removed-Aside sys w =
      WhenDone-bind (Aside w)
        (remove_channel (memory_sys sys) w.loop.poller w.conn.channel w.kernel) _
        λ (p, c, k) e. done-WhenDone (Aside w) _ (record {
          address = refl;
          fd = remove_channel-fd (memory_sys sys) w.loop.poller w.conn.channel w.kernel e;
          rest =
              remove_channel-view (memory_sys sys) (λ s. s.rest) (λ k e d op v. refl) w.loop.poller
                w.conn.channel w.kernel e;
          queue = refl;
          thread = refl;
          tid = refl;
        })

  -- `connectDestroyed` of a closed connection.
  pub destroyed-Aside :
      (sys : Sys K) (cb : Callbacks (World (Memory K))) (w : World (Memory K))
      → w.conn.state ≡ k_disconnected
      → WhenDone (Aside w) (connect_destroyed (memory_sys sys) cb w)
  unfolding connect_destroyed
  destroyed-Aside sys cb w s =
      let test : state_eq w.conn.state k_connected ≡ false = rw s refl in
      rw test (removed-Aside sys w)

  -- A call of a connection that is there.
  pub on_conn-runs :
      (address : ℕ) (f : ℕ → World (Memory K) → Outcome (World (Memory K))) (p : Process (Store K))
      (o : ConnObject) (l : EventLoop)
      → lookup address p.kernel.rest ≡ some o
      → lookup p.server.base_loop p.loops ≡ some l
      → on_conn address f p
        ≡ bind (f o.number (world_of p o.conn l)) λ w. done (stored address o.number w)
  unfolding on_conn
  on_conn-runs address f p o l e at = rw (on_conn, e, at) refl

module _ {K : Type 0} {sys : Sys K} (laws : SysLaws sys) where
  -- What a connection minds of its process is the poller and the descriptor that wakes its loop, and
  -- what the kernel knows.
  pub elsewhere-Inv :
      (w : World (Memory K)) (l : EventLoop) (r : Rest)
      → l.poller ≡ w.loop.poller
      → l.wakeup_fd ≡ w.loop.wakeup_fd
      → Inv (laws_with laws) w
      → Inv (laws_with laws) (record w { loop = l; kernel = record w.kernel { rest = r } })
  elsewhere-Inv w l r same wakes v = record {
    input = v.input;
    output = v.output;
    tracked = rw same (record { in_map = v.tracked.in_map; in_epoll = v.tracked.in_epoll });
    other_fd = rw wakes v.other_fd;
    registered = v.registered;
  }
