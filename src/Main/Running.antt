-- ===== src/Main/Running.antt =====
-- main.go, lines 142 to 182 and 240 to 280: that a server starts.
use sharding_p2p_poc.Prelude.{
  length, ℕ, pos, Bytes, bytes_eq, Bool, true, false, ◌≡◌, ◌≢◌, refl, arith, List, [], ◌∷◌, some,
  All, Bool-cases, inl, inr,
}
use sharding_p2p_poc.Outcome.{ok, panic, Error, returns, fails, panics, ending}
use sharding_p2p_poc.Text.{split, listening_shard_topic}
use sharding_p2p_poc.Network.{Network, PeerInfo, shard_pref_validator, TopicValidator}
use sharding_p2p_poc.State.{Node, initial_node}
use sharding_p2p_poc.Messages.{Codecs}
use sharding_p2p_poc.Manager.{new_shard_manager, subscribe_listening_shards, subscribe_topic}
use sharding_p2p_poc.Bootstrap.{
  Addresses, convert_peers, bootstrap_connect, start_bootstrapping, judge_errors,
}
use sharding_p2p_poc.Bootstrap.Dials.{dial_all-Errors}
use sharding_p2p_poc.Server.Hosts.{make_key, tcp_address}
use sharding_p2p_poc.Notifier.{mock_event_notifier}
use sharding_p2p_poc.Server.Service.{Service}
use sharding_p2p_poc.Main.{
  set_up_tracer, tracer_name, local_agent_host_port, Libraries, new_request_protocol, new_node,
  bootstrapped, make_node, run_rpc_server, bootnodes_of, start_server, Flags, address,
}
use sharding_p2p_poc.Main.Notifiers.{Without, choose_notifier_lem}

-- The libraries let a server start: keys, the host, pubsub and the listener are made, and a dial
-- or the DHT's bootstrapping returns, with or without an error.
pub record LetsStart (net : Network) (libs : Libraries net) (f : Flags) (rpc_addr : Bytes)
    : Type 0 where
  pub key : (k : libs.keys.PrivKey) × (libs.keys.generate_key f.seed ≡ ok k)
  pub id : (k : libs.keys.PrivKey) → (p : Bytes) × (libs.keys.id_from_private_key k ≡ ok p)
  pub host :
      (k : libs.keys.PrivKey) → (w : net.World) × (libs.new_host k (tcp_address f.ip f.port) ≡ ok w)
  pub gossip : (w : net.World) → (libs.new_gossip_sub w).0 ≡ ok tt
  pub subscribes :
      (w : net.World)
      → (sub : net.Subscription) × ((net.subscribe listening_shard_topic w).0 ≡ ok sub)
  pub registers :
      (topic : Bytes) (v : TopicValidator) (w : net.World)
      → (net.register_topic_validator topic v w).0 ≢ panic
  pub connects : (p : PeerInfo) (w : net.World) → (net.connect p w).0 ≢ panic
  pub bootstraps : (w : net.World) → (net.dht_bootstrap w).0 ≢ panic
  pub traces : (name agent : Bytes) → libs.new_tracer name agent ≢ panic
  pub listens : libs.listen rpc_addr ≡ ok tt

-- The texts are multiaddresses, with or without a peer's ID.
pub record AreAddresses (addresses : Addresses) (texts : List Bytes) : Type 0 where
  pub cast : All (λ t. (m : addresses.Multiaddr) × (addresses.string_cast t ≡ some m)) texts
  pub info : (m : addresses.Multiaddr) → addresses.info_from_p2p_addr m ≢ panic

-- The text names no bootstrap node, or multiaddresses with commas between them.
abbrev pub NamesBootnodes : Addresses → Bytes → Type 0
NamesBootnodes addresses [] = Unit
NamesBootnodes addresses (c ∷ text) = AreAddresses addresses (split (c ∷ text) b',')

convert_peers-calm :
    (addresses : Addresses) (texts : List Bytes)
    → AreAddresses addresses texts
    → convert_peers addresses texts ≢ panic
unfolding convert_peers
convert_peers-calm addresses [] a = λ p. cc
convert_peers-calm addresses (t ∷ texts) a = λ p.
    let (m, e) = a.cast.0 in
    let rest = convert_peers-calm addresses texts (record { cast = a.cast.1; info = a.info }) in
    elim (ending (addresses.info_from_p2p_addr m)) [
      | panics q ↦ a.info m q
      | fails err q ↦ absurd (ground (arith, e, q, p))
      | returns i q ↦ elim (ending (convert_peers addresses texts)) [
        | panics r ↦ rest r
        | fails err r ↦ absurd (ground (arith, e, q, r, p))
        | returns l r ↦ absurd (ground (arith, e, q, r, p))
      ]
    ]

module _ (net : Network) where
  judge_errors-calm : (k : ℕ) (errs : List Error) → judge_errors net k errs ≢ panic
  judge_errors-calm k [] p = cc
  judge_errors-calm k (e ∷ errs) p = absurd (ground (arith, p))

  bootnodes_of-returns :
      (libs : Libraries net) (text : Bytes)
      → NamesBootnodes libs.addresses text
      → (peers : List PeerInfo) × (bootnodes_of net libs text ≡ ok peers)
  unfolding bootnodes_of
  bootnodes_of-returns libs [] a = ([], refl)
  bootnodes_of-returns libs (c ∷ text) a =
      elim (ending (convert_peers libs.addresses (split (c ∷ text) b','))) [
        | panics q ↦ absurd (convert_peers-calm libs.addresses (split (c ∷ text) b',') a q)
        | fails err q ↦ ([], rw q)
        | returns peers q ↦ (peers, rw q)
      ]

  module _ (connects : (p : PeerInfo) (w : net.World) → (net.connect p w).0 ≢ panic)
      (bootstraps : (w : net.World) → (net.dht_bootstrap w).0 ≢ panic) where
    bootstrap_connect-calm :
        (peers : List PeerInfo) (n : Node net) → (bootstrap_connect net peers n).0 ≢ panic
    unfolding bootstrap_connect
    bootstrap_connect-calm [] n = λ p. cc
    bootstrap_connect-calm (i ∷ peers) n = λ p.
        let r = dial_all-Errors net connects (i ∷ peers) n in
        judge_errors-calm (length (i ∷ peers)) r.errs (rw r.returned at p)

    start_bootstrapping-calm :
        (peers : List PeerInfo) (n : Node net) → (start_bootstrapping net peers n).0 ≢ panic
    unfolding start_bootstrapping
    start_bootstrapping-calm peers n p = elim (Bool-cases n.do_bootstrapping) [
      | inl on ↦ absurd (ground (arith, on, p))
      | inr off ↦ elim (ending (bootstrap_connect net peers n).0) [
        | panics e ↦ bootstrap_connect-calm peers n e
        | fails err e ↦
            elim (ending (net.dht_bootstrap (bootstrap_connect net peers n).1.world).0) [
              | panics d ↦ bootstraps _ d
              | fails err' d ↦ absurd (ground (arith, off, e, d, p))
              | returns v d ↦ absurd (ground (arith, off, e, d, p))
            ]
        | returns u e ↦
            elim (ending (net.dht_bootstrap (bootstrap_connect net peers n).1.world).0) [
              | panics d ↦ bootstraps _ d
              | fails err' d ↦ absurd (ground (arith, off, e, d, p))
              | returns v d ↦ absurd (ground (arith, off, e, d, p))
            ]
      ]
    ]

    bootstrapped-returns :
        (libs : Libraries net) (doing : Bool) (peers : List PeerInfo) (n : Node net)
        → (bootstrapped net libs doing peers n).0 ≡ ok tt
    bootstrapped-returns libs false peers n = refl
    bootstrapped-returns libs true peers n = elim (ending (start_bootstrapping net peers n).0) [
      | panics e ↦ absurd (start_bootstrapping-calm peers n e)
      | fails err e ↦ rw e
      | returns u e ↦ rw e
    ]

  module _ (libs : Libraries net) (f : Flags) (rpc_addr : Bytes)
      (lets : LetsStart net libs f rpc_addr) where
    new_shard_manager-returns : (n : Node net) → (new_shard_manager net n).0 ≡ ok tt
    unfolding new_shard_manager subscribe_listening_shards subscribe_topic
    new_shard_manager-returns n =
        let r = net.subscribe listening_shard_topic n.world in
        let (sub, e) = lets.subscribes n.world in
        elim (ending
          (net.register_topic_validator listening_shard_topic shard_pref_validator r.1).0) [
            | panics q ↦ absurd (lets.registers listening_shard_topic shard_pref_validator r.1 q)
            | fails err q ↦ ground (arith, e, q)
            | returns u q ↦ ground (arith, e, q)
          ]

    new_node-returns : (n : Node net) → (new_node net libs n).0 ≡ ok tt
    unfolding new_node new_request_protocol
    new_node-returns n = rw (lets.gossip n.world) (new_shard_manager-returns _)

    set_up_tracer-returns : set_up_tracer net libs rpc_addr ≡ ok tt
    unfolding set_up_tracer
    set_up_tracer-returns =
        let name = tracer_name net libs rpc_addr in
        let agent = local_agent_host_port net libs in
        elim (ending (libs.new_tracer name agent)) [
          | panics q ↦ absurd (lets.traces name agent q)
          | fails err q ↦ rw q
          | returns u q ↦ rw q
        ]

    make_node-returns :
        (doing : Bool) (peers : List PeerInfo)
        → (n : Node net) × (make_node net libs f.ip f.port f.seed doing peers ≡ ok n)
    unfolding make_node make_key
    make_node-returns doing peers =
        let (k, e) = lets.key in
        let (p, i) = lets.id k in
        let (w, h) = lets.host k in
        let r = new_node net libs (initial_node net w) in
        (
          (bootstrapped net libs doing peers r.1).1,
          rw (
            e,
            i,
            h,
            new_node-returns (initial_node net w),
            bootstrapped-returns lets.connects lets.bootstraps libs doing peers r.1,
          ),
        )

    -- If the libraries let a server start, the bootstrap nodes, if any, are multiaddresses, and the
    -- address of the notifier has no other colon and the port 0, then runServer comes to serve: the node
    -- is made, whatever the connections to the bootstrap nodes and the bootstrapping of the DHT
    -- return, and the service runs with the mock notifier.
    pub start_server-returns :
        (codecs : Codecs)
        → NamesBootnodes libs.addresses f.bootnodes
        → Without b':' f.rpc_ip
        → f.notifier_port ≡ pos 0
        → (s : Service net) × (start_server net libs codecs f rpc_addr
              (address f.rpc_ip f.notifier_port)
            ≡ ok (mock_event_notifier, s))
    unfolding start_server run_rpc_server
    start_server-returns codecs texts colons zero =
        let (peers, b) = bootnodes_of-returns libs f.bootnodes texts in
        let (n, m) = make_node-returns f.do_bootstrapping peers in
        let chosen = choose_notifier_lem net libs codecs f.rpc_ip (pos 0) colons (omega arith) in
        (
          record { node = n; running = true; stopping = false },
          rw (zero, chosen, b, m, set_up_tracer-returns, lets.listens),
        )
