-- ===== src/Tests/Sessions.antt =====
-- cli.go and rpcserver.go: what a client sees.
use sharding_p2p_poc.Prelude.{
  ℕ, ◌<◌, Bytes, bytes_eq, nat_eq, contains, ◌==◌, not, ◌&&◌, ◌||◌, false, true, ◌≡◌, ◌≢◌, refl,
  arith, List, [], ◌∷◌, Option, none, some, if◌then◌else◌,
}
use sharding_p2p_poc.Prelude.Assoc.{Assoc, lookup}
use sharding_p2p_poc.Outcome.{ok}
use sharding_p2p_poc.Shards.{num_shards}
use sharding_p2p_poc.Shards.View.Listing.{shard_list}
use sharding_p2p_poc.PrefTable.View.{listens}
use sharding_p2p_poc.Peers.{peer_ids_to_pb_peers}
use sharding_p2p_poc.Discovery.{new_global_table}
use sharding_p2p_poc.Discovery.Laws.{new_global_table-ShardDiscovery}
use sharding_p2p_poc.Server.Service.{Service}
use sharding_p2p_poc.Cli.Calls.{shard_ids, peer_lists, printed, client}
use sharding_p2p_poc.Cli.Sessions.{sub_shard, unsub_shard, get_sub_shard}
use sharding_p2p_poc.Cli.Searches.{text_of, discover_shards, discovered-shown}
use sharding_p2p_poc.Manager.Calm.{new_global_table-IsCalmDiscovery}
use sharding_p2p_poc.Cli.Total.{commands-listed}
use sharding_p2p_poc.Fixtures.{network, network-IsCalm, node, codecs, host, table-IsTable}
use sharding_p2p_poc.Fixtures.Clients.{
  keys, addresses, streams, unavailable, json, dial, rpc_addr, dial-Dials,
}

-- A server whose host and Alice listen to the shards 0, 5 and 42
abbrev service : Service network
service = record { node = node; running = true; stopping = false }

joined_7 : (client json dial rpc_addr codecs (sub_shard 3 (7 ∷ [])) service).0 ≡ ok none
unfolding sharding_p2p_poc.Cli.Calls.client sharding_p2p_poc.Cli.Calls.call_rpc_subscribe_shard
    sharding_p2p_poc.Cli.Calls.call_rpc_unsubscribe_shard sharding_p2p_poc.Cli.run_client
    sharding_p2p_poc.Cli.do_sub_shard sharding_p2p_poc.Cli.do_unsub_shard
    sharding_p2p_poc.Cli.parse_shard_ids sharding_p2p_poc.Server.Service.poc_server
    sharding_p2p_poc.Server.Service.served sharding_p2p_poc.Server.Preferences.subscribe_shard
    sharding_p2p_poc.Server.Preferences.subscribe_loop
    sharding_p2p_poc.Server.Preferences.unsubscribe_shard
    sharding_p2p_poc.Server.Preferences.unsubscribe_loop sharding_p2p_poc.Manager.unlisten_shard
    sharding_p2p_poc.Manager.unsubscribe_collation sharding_p2p_poc.Manager.unsubscribe_topic
    sharding_p2p_poc.PrefTable.set_peer_listening_shard sharding_p2p_poc.Manager.listen_shard
    sharding_p2p_poc.Manager.is_shard_listened sharding_p2p_poc.Manager.get_listening_shards
    sharding_p2p_poc.PrefTable.get_peer_listening_shard_slice sharding_p2p_poc.Prelude.Assoc.lookup
    sharding_p2p_poc.State.initial_node sharding_p2p_poc.PrefTable.new_shard_pref_table
    sharding_p2p_poc.Discovery.new_global_table sharding_p2p_poc.Discovery.global_advertise
    sharding_p2p_poc.Text.parse_int sharding_p2p_poc.Text.format_int
    sharding_p2p_poc.Text.format_uint sharding_p2p_poc.Text.digits_loop
    sharding_p2p_poc.Text.parse_uint sharding_p2p_poc.Text.scan_digits
    sharding_p2p_poc.Discovery.toggle sharding_p2p_poc.PrefTable.is_peer_listening_shard
    sharding_p2p_poc.PrefTable.add_peer_listening_shard sharding_p2p_poc.Discovery.global_find_peers
    sharding_p2p_poc.Discovery.peer_infos sharding_p2p_poc.Manager.Connect.connect_all
    sharding_p2p_poc.Manager.Connect.connect_shard_nodes
    sharding_p2p_poc.Manager.Connect.drop_random sharding_p2p_poc.Manager.Connect.peer_set
    sharding_p2p_poc.Manager.in_shards sharding_p2p_poc.Manager.subscribe_collation
    sharding_p2p_poc.Manager.subscribe_general sharding_p2p_poc.Manager.subscribe_topic
    sharding_p2p_poc.PrefTable.get_peer_listening_shard
    sharding_p2p_poc.PrefTable.get_peers_in_shard sharding_p2p_poc.PrefTable.is_peer_recorded
    sharding_p2p_poc.PrefTable.peers_loop sharding_p2p_poc.PrefTable.remove_peer_listening_shard
    sharding_p2p_poc.Prelude.Assoc.insert sharding_p2p_poc.Prelude.contains
    sharding_p2p_poc.Prelude.bytes_beq sharding_p2p_poc.Shards.get_shards
    sharding_p2p_poc.Shards.get_shards_loop sharding_p2p_poc.Shards.is_shard_set
    sharding_p2p_poc.Shards.new_listening_shards sharding_p2p_poc.Shards.set_shard
    sharding_p2p_poc.Shards.shard_id_to_bit_index sharding_p2p_poc.Shards.to_bytes
    sharding_p2p_poc.Shards.unset_shard sharding_p2p_poc.Text.get_collations_topic
    sharding_p2p_poc.Text.remove_all sharding_p2p_poc.Text.shard_topic_to_shard_id
joined_7 = refl

left_42 : (client json dial rpc_addr codecs (unsub_shard (42 ∷ [])) service).0 ≡ ok none
unfolding sharding_p2p_poc.Cli.Calls.client sharding_p2p_poc.Cli.Calls.call_rpc_subscribe_shard
    sharding_p2p_poc.Cli.Calls.call_rpc_unsubscribe_shard sharding_p2p_poc.Cli.run_client
    sharding_p2p_poc.Cli.do_sub_shard sharding_p2p_poc.Cli.do_unsub_shard
    sharding_p2p_poc.Cli.parse_shard_ids sharding_p2p_poc.Server.Service.poc_server
    sharding_p2p_poc.Server.Service.served sharding_p2p_poc.Server.Preferences.subscribe_shard
    sharding_p2p_poc.Server.Preferences.subscribe_loop
    sharding_p2p_poc.Server.Preferences.unsubscribe_shard
    sharding_p2p_poc.Server.Preferences.unsubscribe_loop sharding_p2p_poc.Manager.unlisten_shard
    sharding_p2p_poc.Manager.unsubscribe_collation sharding_p2p_poc.Manager.unsubscribe_topic
    sharding_p2p_poc.PrefTable.set_peer_listening_shard sharding_p2p_poc.Manager.listen_shard
    sharding_p2p_poc.Manager.is_shard_listened sharding_p2p_poc.Manager.get_listening_shards
    sharding_p2p_poc.PrefTable.get_peer_listening_shard_slice sharding_p2p_poc.Prelude.Assoc.lookup
    sharding_p2p_poc.State.initial_node sharding_p2p_poc.PrefTable.new_shard_pref_table
    sharding_p2p_poc.Discovery.new_global_table sharding_p2p_poc.Discovery.global_advertise
    sharding_p2p_poc.Text.parse_int sharding_p2p_poc.Text.format_int
    sharding_p2p_poc.Text.format_uint sharding_p2p_poc.Text.digits_loop
    sharding_p2p_poc.Text.parse_uint sharding_p2p_poc.Text.scan_digits
    sharding_p2p_poc.Discovery.toggle sharding_p2p_poc.PrefTable.is_peer_listening_shard
    sharding_p2p_poc.PrefTable.add_peer_listening_shard sharding_p2p_poc.Discovery.global_find_peers
    sharding_p2p_poc.Discovery.peer_infos sharding_p2p_poc.Manager.Connect.connect_all
    sharding_p2p_poc.Manager.Connect.connect_shard_nodes
    sharding_p2p_poc.Manager.Connect.drop_random sharding_p2p_poc.Manager.Connect.peer_set
    sharding_p2p_poc.Manager.in_shards sharding_p2p_poc.Manager.subscribe_collation
    sharding_p2p_poc.Manager.subscribe_general sharding_p2p_poc.Manager.subscribe_topic
    sharding_p2p_poc.PrefTable.get_peer_listening_shard
    sharding_p2p_poc.PrefTable.get_peers_in_shard sharding_p2p_poc.PrefTable.is_peer_recorded
    sharding_p2p_poc.PrefTable.peers_loop sharding_p2p_poc.PrefTable.remove_peer_listening_shard
    sharding_p2p_poc.Prelude.Assoc.insert sharding_p2p_poc.Prelude.contains
    sharding_p2p_poc.Prelude.bytes_beq sharding_p2p_poc.Shards.get_shards
    sharding_p2p_poc.Shards.get_shards_loop sharding_p2p_poc.Shards.is_shard_set
    sharding_p2p_poc.Shards.new_listening_shards sharding_p2p_poc.Shards.set_shard
    sharding_p2p_poc.Shards.shard_id_to_bit_index sharding_p2p_poc.Shards.to_bytes
    sharding_p2p_poc.Shards.unset_shard sharding_p2p_poc.Text.get_collations_topic
    sharding_p2p_poc.Text.remove_all sharding_p2p_poc.Text.shard_topic_to_shard_id
left_42 = refl

discovered-shown_example :
    (shown : Assoc Bytes (List Bytes)) × (peers : ℕ → List Bytes) × (client json dial rpc_addr
        codecs
        (discover_shards (42 ∷ 7 ∷ []))
        service
      ≡ (printed json (peer_lists shown), service))
    × ((t : ℕ)
        → t < num_shards
        → lookup (text_of t) shown ≡ (
            if contains (42 ∷ 7 ∷ []) t
            then some (peer_ids_to_pb_peers codecs (peers t)).peers
            else none))
    × ((t : ℕ) (q : Bytes)
        → contains (peers t) q ≡ (not (host == q) && listens node.shard_pref_table q t))
discovered-shown_example =
    discovered-shown network codecs keys addresses streams unavailable json dial rpc_addr dial-Dials
      service 42 (7 ∷ []) refl table-IsTable (omega arith)

commands-listed_example :
    ((client json dial rpc_addr codecs (sub_shard 3 (7 ∷ [])) service).0 ≡ ok none)
    × ((client json dial rpc_addr codecs
          (unsub_shard (42 ∷ []))
          (client json dial rpc_addr codecs (sub_shard 3 (7 ∷ [])) service).1).0
        ≡ ok none)
    × ((client json dial rpc_addr codecs get_sub_shard
          (client json dial rpc_addr codecs
            (unsub_shard (42 ∷ []))
            (client json dial rpc_addr codecs (sub_shard 3 (7 ∷ [])) service).1).1).0
        ≡ printed json (
            shard_ids (
              shard_list (λ t.
                not (contains (42 ∷ []) t)
                && (contains (7 ∷ []) t || listens node.shard_pref_table host t)))))
commands-listed_example =
    commands-listed network (new_global_table network) codecs keys addresses streams unavailable
      json dial rpc_addr dial-Dials network-IsCalm
      (new_global_table-IsCalmDiscovery network network-IsCalm)
      (new_global_table-ShardDiscovery network) service 3 7 [] 42 [] refl table-IsTable
      (omega arith) (omega arith) (omega arith)
