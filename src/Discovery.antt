-- ===== src/Discovery.antt =====
-- discovery.go: the interface, and the global table behind it. The table is the node's own.
pub mod Advertise
pub mod Find
pub mod Laws
use sharding_p2p_poc.Prelude.{
  ℤ, Bytes, bytes_eq, Bool, true, false, List, [], ◌∷◌, ◌++◌, ◌==◌, if◌then◌else◌,
}
use sharding_p2p_poc.Outcome
use sharding_p2p_poc.Outcome.{Outcome}
use sharding_p2p_poc.Exec.{Exec, pure, lift, gets, modify, ◌>>=◌, ◌>>◌}
use sharding_p2p_poc.Text.{parse_int, shard_topic_to_shard_id, listening_shard_topic}
use sharding_p2p_poc.Shards.{to_bytes}
use sharding_p2p_poc.PrefTable.{
  ShardPrefTable, is_peer_listening_shard, add_peer_listening_shard, remove_peer_listening_shard,
  get_peer_listening_shard, get_peers_in_shard,
}
use sharding_p2p_poc.Network.{Network, PeerInfo}
use sharding_p2p_poc.State.{Node, external}

-- type Discovery interface
pub record Discovery (S : Type 0) : Type 0 where
  pub advertise : Bytes → Exec S (Unit {0})
  pub find_peers : Bytes → Exec S (List PeerInfo)

-- A shard that we listen to is left, any other is joined.
unfoldable pub toggle : Bytes → ShardPrefTable → ℤ → Outcome ShardPrefTable
toggle host_id table shard_id =
    Outcome.◌>>=◌ (is_peer_listening_shard table host_id shard_id) λ listening.
      if listening
      then remove_peer_listening_shard table host_id shard_id
      else add_peer_listening_shard table host_id shard_id

module _ (net : Network) where
  open net use {World, host_id, publish, peer_info}

  unfoldable pub global_advertise : Bytes → Exec (Node net) (Unit {0})
  global_advertise topic = do
    shard_id ← lift (parse_int topic)
    table ← gets (λ n. n.shard_pref_table)
    table' ← lift (toggle host_id table shard_id)
    modify (λ n. record n { shard_pref_table = table' })
    self_listening_shards ← lift (get_peer_listening_shard table' host_id)
    external net (publish listening_shard_topic (to_bytes self_listening_shards))

  -- The loop over the peers found, without ourself.
  unfoldable pub peer_infos : World → List Bytes → List PeerInfo
  peer_infos w [] = []
  peer_infos w (p ∷ peers) =
      if p == host_id then peer_infos w peers else peer_info p w ∷ peer_infos w peers

  unfoldable pub global_find_peers : Bytes → Exec (Node net) (List PeerInfo)
  unfolding peer_infos
  global_find_peers topic = do
    shard_id ← lift (parse_int (shard_topic_to_shard_id topic))
    table ← gets (λ n. n.shard_pref_table)
    peer_ids ← lift (get_peers_in_shard table shard_id)
    gets (λ n. peer_infos n.world peer_ids)

  -- NewGlobalTable
  unfoldable pub new_global_table : Discovery (Node net)
  new_global_table = record { advertise = global_advertise; find_peers = global_find_peers }
