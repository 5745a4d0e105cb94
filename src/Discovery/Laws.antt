-- ===== src/Discovery/Laws.antt =====
-- discovery.go: what the shard manager relies on in its discovery service.
use sharding_p2p_poc.Prelude.{ℕ, ◌<◌, pos, Bytes, ◌≡◌, refl, arith}
use sharding_p2p_poc.Text.{format_int}
use sharding_p2p_poc.Shards.{num_shards}
use sharding_p2p_poc.PrefTable.View.{listens, IsTable}
use sharding_p2p_poc.Network.{Network}
use sharding_p2p_poc.State.{Node, OnlyWorld}
use sharding_p2p_poc.Discovery.{Discovery, new_global_table, global_advertise, global_find_peers}
use sharding_p2p_poc.Discovery.Advertise.{toggled, global_advertise_lem}

module _ (net : Network) where
  open net use {host_id}

  -- The host has changed sides in the shard s; subscriptions are as before.
  pub record Toggled (n : Node net) (s : ℕ) (n' : Node net) : Type 0 where
    pub is_table : IsTable n'.shard_pref_table
    pub relation :
        (p : Bytes) (t : ℕ)
        → listens n'.shard_pref_table p t ≡ toggled host_id s (listens n.shard_pref_table) p t
    pub subs : n'.subs ≡ n.subs
    pub readers : n'.readers ≡ n.readers

  pub record ShardDiscovery (d : Discovery (Node net)) : Type 0 where
    -- An announcement toggles the host's preference, whatever its outcome.
    pub toggles :
        (n : Node net) (s : ℕ)
        → IsTable n.shard_pref_table
        → s < num_shards
        → Toggled n s (d.advertise (format_int (pos s)) n).1
    -- A search changes nothing but the world.
    pub reads : (n : Node net) (topic : Bytes) → OnlyWorld net n (d.find_peers topic n).1

  find_peers_reads :
      (n : Node net) (topic : Bytes) → OnlyWorld net n (global_find_peers net topic n).1
  unfolding global_find_peers
  find_peers_reads n topic = ground arith

  advertise_toggles :
      (n : Node net) (s : ℕ)
      → IsTable n.shard_pref_table
      → s < num_shards
      → Toggled n s (global_advertise net (format_int (pos s)) n).1
  advertise_toggles n s w h =
      let a = global_advertise_lem net n s w h in
      rw a.run
        (record { is_table = a.is_table; relation = a.relation; subs = refl; readers = refl })

  -- The global table keeps the contract of a discovery service: on a well-formed table and for a
  -- shard below 100, Advertise toggles the host's preference for the shard, whatever its outcome,
  -- keeps the table well formed and the subscriptions as they are; FindPeers changes nothing but
  -- the world.
  pub new_global_table-ShardDiscovery : ShardDiscovery (new_global_table net)
  unfolding new_global_table
  new_global_table-ShardDiscovery = record { toggles = advertise_toggles; reads = find_peers_reads }
