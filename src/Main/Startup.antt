-- ===== src/Main/Startup.antt =====
-- main.go, lines 142 to 182 and 240 to 280: the node that a server starts with.
use sharding_p2p_poc.Prelude.{
  ℤ, Bytes, bytes_eq, Bool, true, false, ◌≡◌, refl, arith, List, [], ◌∷◌, ◌∙◌, subst, Bool-cases,
  inl, inr,
}
use sharding_p2p_poc.Outcome.{ok, fail, Error, returns, fails, panics, ending}
use sharding_p2p_poc.Exec.{attempt, ◌>>◌}
use sharding_p2p_poc.Text.{split, listening_shard_topic}
use sharding_p2p_poc.PrefTable.{new_shard_pref_table}
use sharding_p2p_poc.Network.{Network, PeerInfo}
use sharding_p2p_poc.State.{Node, initial_node}
use sharding_p2p_poc.Messages.{Codecs}
use sharding_p2p_poc.Manager.{new_shard_manager, subscribe_topic}
use sharding_p2p_poc.Manager.Sync.{IsInSync, new_shard_manager-IsInSync}
use sharding_p2p_poc.Bootstrap.{convert_peers, bootstrap_connect, start_bootstrapping}
use sharding_p2p_poc.Bootstrap.Lifecycle.{
  IsCancellable, connected, connected_lem, bootstrapping-IsCancellable,
}
use sharding_p2p_poc.Server.Hosts.{make_key, tcp_address}
use sharding_p2p_poc.Notifier.{EventNotifier}
use sharding_p2p_poc.Server.Service.{Service}
use sharding_p2p_poc.Main.{
  made, Libraries, new_request_protocol, new_node, bootstrapped, make_node, choose_notifier,
  run_rpc_server, set_up_tracer, bootnodes_of, start_server, Flags,
}

ok_second : {A B : Type 0} {x y : A × B} → ok x ≡ ok y → x.1 ≡ y.1
ok_second p = cc

module _ (net : Network) where
  start_bootstrapping_keeps :
      (peers : List PeerInfo) (n : Node net)
      → ((start_bootstrapping net peers n).1.shard_pref_table ≡ n.shard_pref_table)
        × ((start_bootstrapping net peers n).1.subs ≡ n.subs)
  unfolding start_bootstrapping
  start_bootstrapping_keeps peers n = elim (Bool-cases n.do_bootstrapping) [
    | inl on ↦ ground (arith, on)
    | inr off ↦
        let same = connected_lem net peers n in
        elim (ending (attempt (bootstrap_connect net peers) n).0) [
          | returns u e ↦ elim (ending (net.dht_bootstrap (connected net peers n).world).0) [
            | returns v d ↦ ground (arith, off, e, d, same)
            | fails err d ↦ ground (arith, off, e, d, same)
            | panics d ↦ ground (arith, off, e, d, same)
          ]
          | fails err e ↦ ground (arith, off, e, same)
          | panics e ↦ ground (arith, off, e, same)
        ]
  ]

  -- A node as `makeNode` returns it
  pub record Made (doing : Bool) (n : Node net) : Type 0 where
    pub in_sync : IsInSync net n
    pub no_preferences : n.shard_pref_table ≡ new_shard_pref_table
    pub cancellable : IsCancellable net n
    pub idle : doing ≡ false → n.do_bootstrapping ≡ false

  bootstrapped-state :
      (libs : Libraries net) (peers : List PeerInfo) (n : Node net)
      → (bootstrapped net libs true peers n).1 ≡ (start_bootstrapping net peers n).1
  bootstrapped-state libs peers n = elim (ending (start_bootstrapping net peers n).0) [
    | returns u e ↦ rw e
    | fails err e ↦ rw e
    | panics e ↦ rw e
  ]

  bootstrapped-Made :
      (libs : Libraries net) (doing : Bool) (peers : List PeerInfo) (n : Node net)
      → Made false n
      → Made doing (bootstrapped net libs doing peers n).1
  bootstrapped-Made libs false peers n w = w
  bootstrapped-Made libs true peers n w =
      let (table, subs) = start_bootstrapping_keeps peers n in
      rw (bootstrapped-state libs peers n) (record {
        in_sync = record {
          is_table = rw table w.in_sync.is_table;
          agree = λ s h. rw (table, subs) (w.in_sync.agree s h);
        };
        no_preferences = table ∙ w.no_preferences;
        cancellable = (bootstrapping-IsCancellable net peers n w.cancellable).0;
        idle = λ p. absurd (ground (arith, p));
      })

  -- NewShardManager subscribes to a topic, which is all that it changes.
  new_shard_manager_keeps :
      (n : Node net)
      → ((new_shard_manager net n).1.shard_pref_table ≡ n.shard_pref_table)
        × ((new_shard_manager net n).1.do_bootstrapping ≡ n.do_bootstrapping)
        × ((new_shard_manager net n).1.cancel_bootstrapping ≡ n.cancel_bootstrapping)
  unfolding new_shard_manager subscribe_topic
  new_shard_manager_keeps n = elim (ending (net.subscribe listening_shard_topic n.world).0) [
    | returns sub e ↦ ground (arith, e)
    | fails err e ↦ ground (arith, e)
    | panics e ↦ ground (arith, e)
  ]

  new_shard_manager-Made :
      (w : net.World)
      → (new_shard_manager net (initial_node net w)).0 ≡ ok tt
      → Made false (new_shard_manager net (initial_node net w)).1
  new_shard_manager-Made w e =
      let (table, doing, cancel) = new_shard_manager_keeps (initial_node net w) in
      record {
        in_sync = new_shard_manager-IsInSync net w e;
        no_preferences = table ∙ (unfold initial_node in refl);
        cancellable = rw (doing, cancel) (unfold initial_node in refl);
        idle = λ p. doing ∙ (unfold initial_node in refl);
      }

  new_node-Made :
      (libs : Libraries net) (w : net.World)
      → (new_node net libs (initial_node net w)).0 ≡ ok tt
      → Made false (new_node net libs (initial_node net w)).1
  unfolding new_node new_request_protocol initial_node
  new_node-Made libs w e = elim (ending (libs.new_gossip_sub w).0) [
    | returns u q ↦ rw q (new_shard_manager-Made _ (rw q at e))
    | fails err q ↦ absurd (ground (arith, q, e))
    | panics q ↦ absurd (ground (arith, q, e))
  ]

  made-Made :
      (libs : Libraries net) (doing : Bool) (peers : List PeerInfo) (w : net.World) (n : Node net)
      → made net libs
          ((new_node net libs >> bootstrapped net libs doing peers) (initial_node net w))
        ≡ ok n
      → Made doing n
  made-Made libs doing peers w n e = elim (ending (new_node net libs (initial_node net w)).0) [
    | fails err q ↦ absurd (ground (arith, q, e))
    | panics q ↦ absurd (ground (arith, q, e))
    | returns u q ↦
        let m = (new_node net libs (initial_node net w)).1 in
        elim (ending (bootstrapped net libs doing peers m).0) [
          | fails err b ↦ absurd (ground (arith, q, b, e))
          | panics b ↦ absurd (ground (arith, q, b, e))
          | returns v b ↦
              subst (Made doing) (returned m (rw (q, b) at e))
                (bootstrapped-Made libs doing peers m (new_node-Made libs w q))
        ]
  ]
    where
      returned :
          (m : Node net)
          → ok (bootstrapped net libs doing peers m).1 ≡ ok n
          → (bootstrapped net libs doing peers m).1 ≡ n
      returned m p = cc

  -- If makeNode returns a node, then its table is empty and well formed, its preferences and
  -- subscriptions agree, it bootstraps exactly when it holds a cancel function, and it does not
  -- bootstrap without the flag, whatever the connections to the bootstrap peers do.
  pub make_node-Made :
      (libs : Libraries net) (ip : Bytes) (port seed : ℤ) (doing : Bool) (peers : List PeerInfo)
      (n : Node net)
      → make_node net libs ip port seed doing peers ≡ ok n
      → Made doing n
  unfolding make_node
  make_node-Made libs ip port seed doing peers n e = elim (ending (make_key libs.keys seed)) [
    | fails err q ↦ absurd (ground (arith, q, e))
    | panics q ↦ absurd (ground (arith, q, e))
    | returns key q ↦ elim (ending (libs.new_host key.0 (tcp_address ip port))) [
      | fails err r ↦ absurd (ground (arith, q, r, e))
      | panics r ↦ absurd (ground (arith, q, r, e))
      | returns w r ↦ made-Made libs doing peers w n (rw (q, r) at e)
    ]
  ]

  unreadable_bootnodes :
      (libs : Libraries net) (text : Bytes) (err : Error)
      → convert_peers libs.addresses (split text b',') ≡ fail err
      → bootnodes_of net libs text ≡ ok []
  unfolding bootnodes_of
  unreadable_bootnodes libs [] err q = refl
  unreadable_bootnodes libs (c ∷ text) err q = rw q

  pub bad_bootnodes :
      (libs : Libraries net) (codecs : Codecs) (f : Flags) (rpc_addr notifier_addr : Bytes)
      (err : Error)
      → convert_peers libs.addresses (split f.bootnodes b',') ≡ fail err
      → start_server net libs codecs f rpc_addr notifier_addr
        ≡ start_server net libs codecs (record f { bootnodes = [] }) rpc_addr notifier_addr
  unfolding start_server
  bad_bootnodes libs codecs f rpc_addr notifier_addr err e =
      rw (unreadable_bootnodes libs f.bootnodes err e) (unfold bootnodes_of in refl)

  -- The server runs, with a node as `makeNode` returns it.
  pub record Started (f : Flags) (s : Service net) : Type 0 where
    pub running : s.running ≡ true
    pub made_node : Made f.do_bootstrapping s.node

  pub start_server-Started :
      (libs : Libraries net) (codecs : Codecs) (f : Flags) (rpc_addr notifier_addr : Bytes)
      (notifier : EventNotifier (Node net)) (s : Service net)
      → start_server net libs codecs f rpc_addr notifier_addr ≡ ok (notifier, s)
      → Started f s
  unfolding start_server run_rpc_server
  start_server-Started libs codecs f rpc_addr notifier_addr notifier s e =
      elim (ending (choose_notifier net libs codecs notifier_addr)) [
        | fails err q ↦ absurd (ground (arith, q, e))
        | panics q ↦ absurd (ground (arith, q, e))
        | returns chosen q ↦ elim (ending (bootnodes_of net libs f.bootnodes)) [
          | fails err b ↦ absurd (ground (arith, q, b, e))
          | panics b ↦ absurd (ground (arith, q, b, e))
          | returns peers b ↦
              elim (ending (make_node net libs f.ip f.port f.seed f.do_bootstrapping peers)) [
                | fails err m ↦ absurd (ground (arith, q, b, m, e))
                | panics m ↦ absurd (ground (arith, q, b, m, e))
                | returns n m ↦ elim (ending (set_up_tracer net libs rpc_addr)) [
                  | fails err t ↦ absurd (ground (arith, q, b, m, t, e))
                  | panics t ↦ absurd (ground (arith, q, b, m, t, e))
                  | returns v t ↦ elim (ending (libs.listen rpc_addr)) [
                    | fails err l ↦ absurd (ground (arith, q, b, m, t, l, e))
                    | panics l ↦ absurd (ground (arith, q, b, m, t, l, e))
                    | returns u l ↦
                        subst (Started f) (ok_second (rw (q, b, m, t, l) at e)) (record {
                          running = refl;
                          made_node =
                              make_node-Made libs f.ip f.port f.seed f.do_bootstrapping peers n m;
                        })
                  ]
                ]
              ]
        ]
      ]
