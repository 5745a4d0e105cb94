-- ===== src/Tests/Server.antt =====
-- rpcserver.go: runs of the handlers.
use sharding_p2p_poc.Prelude.{
  ℕ, ◌<◌, Bytes, bytes_eq, nat_eq, contains, ◌==◌, not, ◌&&◌, if◌then◌else◌, some, none, ◌≡◌, ◌≢◌,
  refl, arith, ℤ, pos, negsuc, List, [], ◌∷◌, map,
}
use sharding_p2p_poc.Prelude.Assoc.{Assoc, lookup}
use sharding_p2p_poc.Shards.{num_shards}
use sharding_p2p_poc.Outcome.{ok, panic}
use sharding_p2p_poc.State.{Node, initial_node}
use sharding_p2p_poc.Discovery.{Discovery, new_global_table}
use sharding_p2p_poc.Server.Preferences.{discover_shard, subscribe_shard}
use sharding_p2p_poc.Fixtures.{network}

abbrev started : Node network
started = initial_node network 0

abbrev discovery : Discovery (Node network)
discovery = new_global_table network

returned : (subscribe_shard network discovery (pos 3) (map pos (7 ∷ 42 ∷ [])) started).0 ≡ ok tt
unfolding subscribe_shard sharding_p2p_poc.Server.Preferences.subscribe_loop
    sharding_p2p_poc.Manager.listen_shard sharding_p2p_poc.Manager.is_shard_listened
    sharding_p2p_poc.Manager.get_listening_shards
    sharding_p2p_poc.PrefTable.get_peer_listening_shard_slice sharding_p2p_poc.Prelude.Assoc.lookup
    sharding_p2p_poc.State.initial_node sharding_p2p_poc.PrefTable.new_shard_pref_table
    sharding_p2p_poc.Discovery.new_global_table sharding_p2p_poc.Discovery.global_advertise
    sharding_p2p_poc.Text.parse_int sharding_p2p_poc.Text.format_int
    sharding_p2p_poc.Text.format_uint sharding_p2p_poc.Text.digits_loop
    sharding_p2p_poc.Text.parse_uint sharding_p2p_poc.Text.scan_digits
    sharding_p2p_poc.Discovery.toggle sharding_p2p_poc.PrefTable.is_peer_listening_shard
    sharding_p2p_poc.PrefTable.add_peer_listening_shard sharding_p2p_poc.Discovery.global_find_peers
    sharding_p2p_poc.Discovery.peer_infos sharding_p2p_poc.Manager.Connect.connect_all
    sharding_p2p_poc.Manager.Connect.connect_shard_nodes
    sharding_p2p_poc.Manager.Connect.drop_random sharding_p2p_poc.Manager.Connect.peer_set
    sharding_p2p_poc.Manager.in_shards sharding_p2p_poc.Manager.subscribe_collation
    sharding_p2p_poc.Manager.subscribe_general sharding_p2p_poc.Manager.subscribe_topic
    sharding_p2p_poc.PrefTable.get_peer_listening_shard
    sharding_p2p_poc.PrefTable.get_peers_in_shard sharding_p2p_poc.PrefTable.is_peer_recorded
    sharding_p2p_poc.PrefTable.peers_loop sharding_p2p_poc.PrefTable.remove_peer_listening_shard
    sharding_p2p_poc.Prelude.Assoc.insert sharding_p2p_poc.Prelude.contains
    sharding_p2p_poc.Prelude.bytes_beq sharding_p2p_poc.Shards.get_shards
    sharding_p2p_poc.Shards.get_shards_loop sharding_p2p_poc.Shards.is_shard_set
    sharding_p2p_poc.Shards.new_listening_shards sharding_p2p_poc.Shards.set_shard
    sharding_p2p_poc.Shards.shard_id_to_bit_index sharding_p2p_poc.Shards.to_bytes
    sharding_p2p_poc.Shards.unset_shard sharding_p2p_poc.Text.get_collations_topic
    sharding_p2p_poc.Text.remove_all sharding_p2p_poc.Text.shard_topic_to_shard_id
returned = refl

no_panic : (subscribe_shard network discovery (pos 3) (map pos (7 ∷ 42 ∷ [])) started).0 ≢ panic
no_panic p = ground (arith, p, returned)
