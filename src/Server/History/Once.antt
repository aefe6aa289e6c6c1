-- ===== src/Server/History/Once.antt =====
-- TcpServer.cc: a connection that is removed is destroyed once.
use moduo_write.Common.{
  ℕ, ◌≡◌, refl, sym, ap, ◌∙◌, subst, ◌≢◌, inl, inr, Bool-cases, some, List, [], ◌∷◌, ◌++◌,
  append-nil, append_assoc, arith, get_or, ◌==◌, Outcome, some-injective,
}
use moduo_write.Common.Dict.{lookup, insert, erase, lookup-insert, lookup-erase}
use moduo_write.System.{Sys}
use moduo_write.EventLoop.{EventLoop, Functor, connect_established, connect_destroyed, push_functor}
use moduo_write.ThreadPool.RoundRobin.{next_index, next_index-IsValid}
use moduo_write.Server.{ServerConn, TcpServer, Process, new_conn}
use moduo_write.Server.Lifecycle.{joined-Inv, erased-Inv}
use moduo_write.Server.History.{
  IsElsewhere, Running, destructions, IsApart, IsDistinct, AreGone, known_below, joined, pushed,
  History, begins, accepts, removes, new_connection-pushed, remove_connection-pushed,
}

module _ {K : Type 0} (sys : Sys K) where
  -- A loop that is replaced by one of the same thread leaves every loop where it was.
  kept_elsewhere :
      (p q : Process K) (loop a : ℕ) (l : EventLoop)
      → q.tid ≡ p.tid
      → q.loops ≡ insert loop l p.loops
      → ((m : EventLoop) → lookup loop p.loops ≡ some m → m.thread_id ≡ l.thread_id)
      → IsElsewhere p a
      → IsElsewhere q a
  kept_elsewhere p q loop a l same e keeps (m, at, away) = elim (Bool-cases (loop == a)) [
    | inl here ↦
        let is : loop ≡ a = ground arith in
        (
          l,
          ap (lookup a) e ∙ ground (arith, lookup-insert loop a l p.loops),
          λ back. away (keeps m (ap (λ i. lookup i p.loops) is ∙ at) ∙ back ∙ same),
        )
    | inr other ↦ (
      m,
      ap (lookup a) e ∙ ground (arith, lookup-insert loop a l p.loops),
      λ back. away (back ∙ same),
    )
  ]

  same_thread :
      (loop : ℕ) (p : Process K) (l : EventLoop)
      → lookup loop p.loops ≡ some l
      → (m : EventLoop) → lookup loop p.loops ≡ some m
      → m.thread_id ≡ l.thread_id
  same_thread loop p l e m h = ground arith

  -- What the base loop has queued since `p`, and what the server has forgotten.
  pub record Since (l₀ : EventLoop) (cs : List ServerConn) (q : Process K) : Type 0 where
    pub running : Running q
    pub queue :
        (l : EventLoop)
        → lookup q.server.base_loop q.loops ≡ some l
        → l.pending_functors ≡ l₀.pending_functors ++ destructions cs
    pub distinct : IsDistinct cs
    pub gone : AreGone cs q.server

  gone-joined :
      (address sockfd : ℕ) (s : TcpServer) (cs : List ServerConn)
      → AreGone cs s
      → AreGone cs (joined address sockfd s)
  gone-joined address sockfd s [] g = tt
  gone-joined address sockfd s (c ∷ cs) (none_there, below, g) = (
    ground (arith, lookup-insert s.next_conn_id c.id (new_conn address sockfd s) s.connections),
    omega arith,
    gone-joined address sockfd s cs g,
  )

  gone-erased :
      (id : ℕ) (s : TcpServer) (cs : List ServerConn)
      → AreGone cs s
      → AreGone cs (record s { connections = erase id s.connections })
  gone-erased id s [] g = tt
  gone-erased id s (c ∷ cs) (none_there, below, g) =
      (ground (arith, lookup-erase id c.id s.connections), below, gone-erased id s cs g)

  apart :
      (c : ServerConn) (s : TcpServer) (cs : List ServerConn)
      → lookup c.id s.connections ≡ some c
      → AreGone cs s
      → IsApart c cs
  apart c s [] e g = tt
  apart c s (d ∷ ds) e (none_there, below, g) =
      (λ same. cc (e, ap (λ i. lookup i s.connections) same, none_there), apart c s ds e g)

  joined-Since :
      (l₀ l : EventLoop) (cs : List ServerConn) (q : Process K) (address sockfd : ℕ)
      → Since l₀ cs q
      → let io = get_or q.server.thread_pool.loops q.server.thread_pool.next 0 in
        lookup io q.loops ≡ some l
        → l.thread_id ≢ q.tid
        → Since l₀ cs (
            pushed sys io
              (connect_established address)
              l
              (record q { server = joined address sockfd q.server }))
  unfolding push_functor
  joined-Since l₀ l cs q address sockfd v at away =
      let s = q.server in
      let io = get_or s.thread_pool.loops s.thread_pool.next 0 in
      let f = connect_established address in
      let r = pushed sys io f l (record q { server = joined address sockfd s }) in
      let (b, base, home) = v.running.base in
      let not_base : io ≢ s.base_loop = λ same. away (
        ap (λ m. m.thread_id) (some-injective (sym at ∙ ap (λ i. lookup i q.loops) same ∙ base))
        ∙ home) in
      let unmoved : lookup s.base_loop r.loops ≡ lookup s.base_loop q.loops =
        ground (arith, lookup-insert io s.base_loop (push_functor f l) q.loops) in
      record {
        running = record {
          inv =
              joined-Inv address sockfd s (record s.thread_pool { next = next_index s.thread_pool })
                v.running.inv;
          valid = next_index-IsValid s.thread_pool v.running.valid;
          base = (b, unmoved ∙ base, home);
          pool = λ i h.
              kept_elsewhere q r io (get_or s.thread_pool.loops i 0) (push_functor f l) refl refl
                (same_thread io q l at) (v.running.pool i h);
        };
        queue = λ m e. v.queue m (sym unmoved ∙ e);
        distinct = v.distinct;
        gone = gone-joined address sockfd s cs v.gone;
      }

  removed-Since :
      (l₀ l : EventLoop) (cs : List ServerConn) (q : Process K) (c : ServerConn) (k : K)
      → Since l₀ cs q
      → lookup c.id q.server.connections ≡ some c
      → lookup q.server.base_loop q.loops ≡ some l
      → l.thread_id ≡ q.tid
      → Since l₀ (c ∷ cs) (record q {
        server = record q.server { connections = erase c.id q.server.connections };
        loops = insert q.server.base_loop (push_functor (connect_destroyed c.address) l) q.loops;
        kernel = k;
      })
  unfolding push_functor
  removed-Since l₀ l cs q c k v known at home =
      let s = q.server in
      let l' = push_functor (connect_destroyed c.address) l in
      let r = record q {
        server = record s { connections = erase c.id s.connections };
        loops = insert s.base_loop l' q.loops;
        kernel = k;
      } in
      let moved : lookup s.base_loop r.loops ≡ some l' =
        ground (arith, lookup-insert s.base_loop s.base_loop l' q.loops) in
      record {
        running = record {
          inv = erased-Inv c.id s v.running.inv;
          valid = v.running.valid;
          base = (l', moved, home);
          pool = λ i h.
              kept_elsewhere q r s.base_loop (get_or s.thread_pool.loops i 0) l' refl refl
                (same_thread s.base_loop q l at) (v.running.pool i h);
        };
        queue = λ m e.
            ap (λ x. x.pending_functors) (some-injective (sym e ∙ moved))
            ∙ ap (λ fs. fs ++ connect_destroyed c.address ∷ []) (v.queue l at)
            ∙ append_assoc l₀.pending_functors (destructions cs) (connect_destroyed c.address ∷ []);
        distinct = (apart c s cs known v.gone, v.distinct);
        gone = (
          ground (arith, lookup-erase c.id c.id s.connections),
          known_below s c v.running.inv known,
          gone-erased c.id s cs v.gone,
        );
      }

  module _ (exec : Functor → Process K → Outcome (Process K)) where
    pub History-Since :
        (l₀ : EventLoop) (p q : Process K) (cs : List ServerConn)
        → Running p
        → lookup p.server.base_loop p.loops ≡ some l₀
        → History sys exec p cs q
        → Since l₀ cs q
    History-Since l₀ p q cs run at begins = record {
      running = run;
      queue = λ l e.
          ap (λ x. x.pending_functors) (some-injective (sym e ∙ at))
          ∙ sym (append-nil l₀.pending_functors);
      distinct = tt;
      gone = tt;
    }
    History-Since l₀ p r cs run at (accepts _ q _ address sockfd h e) =
        let v = History-Since l₀ p q cs run at h in
        let (l, there, away) = v.running.pool q.server.thread_pool.next v.running.valid in
        subst (Since l₀ cs)
          (sym (new_connection-pushed sys exec address sockfd q r l v.running.valid there away e))
          (joined-Since l₀ l cs q address sockfd v there away)
    History-Since l₀ p r _ run at (removes cs q _ id c h known e) =
        let v = History-Since l₀ p q cs run at h in
        let (same_id, own) = v.running.inv.own id c known in
        let (l, base, home) = v.running.base in
        let (k, is) = remove_connection-pushed sys exec q r c l own base home e in
        subst (Since l₀ (c ∷ cs)) (sym is) (
          removed-Since l₀ l cs q c k v (ap (λ i. lookup i q.server.connections) same_id ∙ known)
            base home)

    -- A server in the thread of its base loop, with a pool of loops in other threads. However
    -- connections are accepted, and removed while they are in the map, every removed connection is
    -- destroyed once: since the beginning the base loop has been given exactly one `connectDestroyed`
    -- for each, in the order of removal. The removed ones have different numbers, none of them is in
    -- the map any more, and their numbers are not given again.
    pub removed_once :
        (l₀ : EventLoop) (p q : Process K) (cs : List ServerConn)
        → Running p
        → lookup p.server.base_loop p.loops ≡ some l₀
        → History sys exec p cs q
        → Running q
          × IsDistinct cs
          × AreGone cs q.server
          × (l : EventLoop) × (lookup q.server.base_loop q.loops ≡ some l)
          × (l.pending_functors ≡ l₀.pending_functors ++ destructions cs)
    removed_once l₀ p q cs run at h =
        let v = History-Since l₀ p q cs run at h in
        let (l, base, _) = v.running.base in
        (v.running, v.distinct, v.gone, l, base, v.queue l base)
