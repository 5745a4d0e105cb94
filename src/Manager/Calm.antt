-- ===== src/Manager/Calm.antt =====
-- shardmanager.go, lines 93 to 306: that the subscriptions to shards return. A panic of `rand.Intn`,
-- of a bit string's index or of a nil entry would end the process.
use sharding_p2p_poc.Prelude.{
  ℕ, ◌<◌, ℤ, pos, negsuc, Bytes, bytes_eq, false, ◌≡◌, ◌≢◌, refl, arith, List, [], ◌∷◌, length,
  leb_ℤ, Option, some, none, Bool-cases, inl, inr,
}
use sharding_p2p_poc.Outcome.{Outcome, ok, fail, panic, returns, fails, panics, ending}
use sharding_p2p_poc.Exec.{Exec, continue, seen}
use sharding_p2p_poc.Text.{format_int, get_collations_topic, listening_shard_topic}
use sharding_p2p_poc.Shards.{num_shards}
use sharding_p2p_poc.PrefTable.View.{listens, IsTable}
use sharding_p2p_poc.Network.{
  Network, PeerInfo, TopicHandler, TopicValidator, general_handler, general_validator,
}
use sharding_p2p_poc.State.{Node}
use sharding_p2p_poc.Discovery.{Discovery, new_global_table}
use sharding_p2p_poc.Discovery.Advertise.{global_advertise_lem}
use sharding_p2p_poc.Discovery.Find.{bare, global_find_peers_lem}
use sharding_p2p_poc.Discovery.Laws.{ShardDiscovery}
use sharding_p2p_poc.Manager.{
  subscribe_topic, subscribe_collation, listen_shard, unsubscribe_collation, unlisten_shard,
}
use sharding_p2p_poc.Manager.Connect.{
  peer_set, unconnected, dif_count, connect_all, connect_shard_nodes,
}
use sharding_p2p_poc.Manager.Connect.Bounds.{
  AllDifferent, length-peer_set, dif_count-le, drop_random_lem,
}
use sharding_p2p_poc.Manager.Listen.{is_shard_listened_lem}
use sharding_p2p_poc.Manager.Unlisten.{unsubscribe_topic-Unsubscribes}

-- The libraries return from what a subscription calls, with or without an error, and pubsub lists
-- the peers of a topic once each, which are the keys of a map.
pub record IsCalm (net : Network) : Type 0 where
  pub subscribes : (topic : Bytes) (w : net.World) → (net.subscribe topic w).0 ≢ panic
  pub registers :
      (topic : Bytes) (v : TopicValidator) (w : net.World)
      → (net.register_topic_validator topic v w).0 ≢ panic
  pub publishes : (topic bytes : Bytes) (w : net.World) → (net.publish topic bytes w).0 ≢ panic
  pub connects : (p : PeerInfo) (w : net.World) → (net.connect p w).0 ≢ panic
  pub peers_once : (topic : Bytes) (w : net.World) → AllDifferent (net.list_peers topic w)

-- A discovery service returns on a well-formed table and for a shard in range.
pub record IsCalmDiscovery (net : Network) (d : Discovery (Node net)) : Type 0 where
  pub advertises :
      (n : Node net) (s : ℕ)
      → IsTable n.shard_pref_table
      → s < num_shards
      → (d.advertise (format_int (pos s)) n).0 ≢ panic
  pub finds :
      (n : Node net) (s : ℕ)
      → IsTable n.shard_pref_table
      → s < num_shards
      → (d.find_peers (format_int (pos s)) n).0 ≢ panic

pub new_global_table-IsCalmDiscovery :
    (net : Network) → IsCalm net → IsCalmDiscovery net (new_global_table net)
unfolding new_global_table
new_global_table-IsCalmDiscovery net calm = record {
  advertises = λ n s w h p.
      let a = global_advertise_lem net n s w h in
      calm.publishes listening_shard_topic a.announced n.world (rw a.run at p);
  finds = λ n s w h p.
      let (infos, found, _) = global_find_peers_lem net n s (format_int (pos s)) w h (bare refl) in
      absurd (ground (arith, found, p));
}

-- After an attempt the block goes on, unless it panicked.
pub seen-calm {ℓ κ} :
    {S : Type 0} {A : Type ℓ} {B : Type κ} (r : Outcome A) (s : S) (f : Option _ → Exec S B)
    → r ≢ panic
    → ((o : Option _) → (f o s).0 ≢ panic)
    → (continue (seen r s).0 f (seen r s).1).0 ≢ panic
seen-calm (ok a) s f h g = g none
seen-calm (fail e) s f h g = g (some e)
seen-calm panic s f h g = absurd (h refl)

-- A negative number is at most the number of peers.
too_few : (num : ℤ) (k : ℕ) → leb_ℤ num (pos k) ≡ false → (m : ℕ) × (num ≡ pos m) × (k < m)
too_few (pos m) k e = (m, refl, ground arith)
too_few (negsuc m) k e = absurd (ground arith)

module _ (net : Network) (calm : IsCalm net) where
  open net use {list_peers, connect, subscribe, register_topic_validator}

  connect_all-calm : (pinfos : List PeerInfo) (n : Node net) → (connect_all net pinfos n).0 ≢ panic
  unfolding connect_all
  connect_all-calm [] n = λ p. cc
  connect_all-calm (i ∷ pinfos) n =
      let r = connect i n.world in
      seen-calm r.0 (record n { world = r.1 }) (λ o. connect_all net pinfos)
        (calm.connects i n.world) (λ o. connect_all-calm pinfos (record n { world = r.1 }))

  pub subscribe_topic-calm :
      (n : Node net) (topic : Bytes) (handler : TopicHandler) (v : TopicValidator)
      → (subscribe_topic net topic handler (some v) n).0 ≢ panic
  unfolding subscribe_topic
  subscribe_topic-calm n topic handler v p =
      let r = subscribe topic n.world in
      elim (ending r.0) [
        | panics e ↦ calm.subscribes topic n.world e
        | fails err e ↦ absurd (ground (arith, e, p))
        | returns sub e ↦ elim (ending (register_topic_validator topic v r.1).0) [
          | panics q ↦ calm.registers topic v r.1 q
          | fails err q ↦ absurd (ground (arith, e, q, p))
          | returns u q ↦ absurd (ground (arith, e, q, p))
        ]
      ]

  module _ (d : Discovery (Node net)) (finds : IsCalmDiscovery net d) where
    -- rand.Intn is never called with 0: the rounds are at most as many as the peers.
    pub connect_shard_nodes-calm :
        (n : Node net) (num : ℤ) (s : ℕ)
        → IsTable n.shard_pref_table
        → s < num_shards
        → (connect_shard_nodes net d num (pos s) n).0 ≢ panic
    unfolding connect_shard_nodes
    connect_shard_nodes-calm n num s w h p =
        let connected = list_peers (get_collations_topic (pos s)) n.world in
        let f = d.find_peers (format_int (pos s)) n in
        elim (Bool-cases (leb_ℤ num (pos (length (peer_set connected))))) [
          | inl enough ↦ absurd (ground (arith, enough, p))
          | inr few ↦ elim (ending f.0) [
            | panics e ↦ finds.finds n s w h e
            | fails err e ↦ absurd (ground (arith, few, e, p))
            | returns found e ↦
                let (m, same, lt) = too_few num (length (peer_set connected)) few in
                let pinfos = unconnected (peer_set connected) found in
                let once = length-peer_set connected (calm.peers_once _ n.world) in
                let k =
                  drop_random_lem net f.1 (dif_count (length pinfos) (pos m) (length connected))
                    pinfos (dif_count-le (length pinfos) m (length connected) (rw once at lt)) in
                connect_all-calm _ k.after (rw (few, e, same, k.run) at p)
          ]
        ]

    module _ (laws : ShardDiscovery net d) where
      -- If no library call panics and pubsub lists a topic's peers once each, with a discovery
      -- service that does not panic and keeps its contract: on a well-formed table and for a shard
      -- below 100, ListenShard does not panic, whatever number of peers it is to connect to.
      pub listen_shard-calm :
          (n : Node net) (num : ℤ) (s : ℕ)
          → IsTable n.shard_pref_table
          → s < num_shards
          → (listen_shard net d num (pos s) n).0 ≢ panic
      unfolding listen_shard subscribe_collation
      listen_shard-calm n num s w h p =
          let a = d.advertise (format_int (pos s)) n in
          let tog = laws.toggles n s w h in
          elim (Bool-cases (listens n.shard_pref_table net.host_id s)) [
            | inl on ↦ absurd (ground (arith, rw (is_shard_listened_lem net n s w h, on) at p))
            | inr off ↦ elim (ending a.0) [
              | panics e ↦ finds.advertises n s w h e
              | fails err e ↦
                  absurd (ground (arith, rw (is_shard_listened_lem net n s w h, off, e) at p))
              | returns u e ↦
                  let c = connect_shard_nodes net d num (pos s) a.1 in
                  seen-calm c.0 c.1 (λ _. subscribe_collation net (pos s))
                    (connect_shard_nodes-calm a.1 num s tog.is_table h)
                    (λ o.
                      subscribe_topic-calm c.1 (get_collations_topic (pos s)) general_handler
                        general_validator)
                    (rw (is_shard_listened_lem net n s w h, off, e) at p)
            ]
          ]

      -- UnlistenShard as well.
      pub unlisten_shard-calm :
          (n : Node net) (s : ℕ)
          → IsTable n.shard_pref_table
          → s < num_shards
          → (unlisten_shard net d (pos s) n).0 ≢ panic
      unfolding unlisten_shard unsubscribe_collation
      unlisten_shard-calm n s w h p =
          let a = d.advertise (format_int (pos s)) n in
          elim (Bool-cases (listens n.shard_pref_table net.host_id s)) [
            | inr off ↦ absurd (ground (arith, rw (is_shard_listened_lem net n s w h, off) at p))
            | inl on ↦ elim (ending a.0) [
              | panics e ↦ finds.advertises n s w h e
              | fails err e ↦
                  absurd (ground (arith, rw (is_shard_listened_lem net n s w h, on, e) at p))
              | returns u e ↦
                  let un = unsubscribe_topic-Unsubscribes net a.1 (get_collations_topic (pos s)) in
                  absurd (
                    ground (arith, un.returned, rw (is_shard_listened_lem net n s w h, on, e) at p))
            ]
          ]
