-- ===== src/Tests/Main.antt =====
-- main.go: the start of a server.
use sharding_p2p_poc.Prelude.{
  ℤ, pos, Bytes, bytes_eq, nat_eq, int_eq, bytes_beq, ◌==◌, codes, contains, false, true, ◌≡◌, ◌≢◌,
  refl, arith, List, [], ◌∷◌, ◌++◌, Option, none, if◌then◌else◌,
}
use sharding_p2p_poc.Text.{split}
use sharding_p2p_poc.Outcome.{Outcome, ok, panic, fail}
use sharding_p2p_poc.State.{Node}
use sharding_p2p_poc.Notifier.{EventNotifier, mock_event_notifier}
use sharding_p2p_poc.Server.Service.{Service}
use sharding_p2p_poc.Cli.{or_fatal}
use sharding_p2p_poc.Main.{
  Flags, default_flags, default_ip, address, make_node, start_server, choose_notifier,
  new_rpc_event_notifier,
}
use sharding_p2p_poc.Main.Startup.{Made, make_node-Made}
use sharding_p2p_poc.Main.Notifiers.{colons_in_ip}
use sharding_p2p_poc.Main.Running.{NamesBootnodes}
use sharding_p2p_poc.Main.Sessions.{Dialogue, whole_session}
use sharding_p2p_poc.Fixtures.{network, network-IsCalm, node, codecs}
use sharding_p2p_poc.Fixtures.Clients.{
  libraries, streams, unavailable, json, dial, rpc_addr, dial-Dials, libraries-LetsStart,
}

-- What an outcome holds; the node of the tests otherwise
abbrev node_of : Outcome (Node network) → Node network
node_of (ok n) = n
node_of (fail e) = node
node_of panic = node

abbrev made : Node network
made = node_of (make_node network libraries default_ip (pos 10000) (pos 0) true [])

makes : make_node network libraries default_ip (pos 10000) (pos 0) true [] ≡ ok made
unfolding sharding_p2p_poc.Main.start_server sharding_p2p_poc.Main.choose_notifier
    sharding_p2p_poc.Main.bootnodes_of sharding_p2p_poc.Main.make_node
    sharding_p2p_poc.Main.new_node sharding_p2p_poc.Main.new_request_protocol
    sharding_p2p_poc.Main.run_rpc_server sharding_p2p_poc.Server.Hosts.make_key
    sharding_p2p_poc.Manager.new_shard_manager sharding_p2p_poc.Text.split
    sharding_p2p_poc.Text.split_loop sharding_p2p_poc.Main.new_rpc_event_notifier
    sharding_p2p_poc.Bootstrap.convert_peers sharding_p2p_poc.Bootstrap.start_bootstrapping
    sharding_p2p_poc.Bootstrap.bootstrap_connect sharding_p2p_poc.Manager.listen_shard
    sharding_p2p_poc.Manager.is_shard_listened sharding_p2p_poc.Manager.get_listening_shards
    sharding_p2p_poc.PrefTable.get_peer_listening_shard_slice sharding_p2p_poc.Prelude.Assoc.lookup
    sharding_p2p_poc.State.initial_node sharding_p2p_poc.PrefTable.new_shard_pref_table
    sharding_p2p_poc.Discovery.new_global_table sharding_p2p_poc.Discovery.global_advertise
    sharding_p2p_poc.Text.parse_int sharding_p2p_poc.Text.format_int
    sharding_p2p_poc.Text.format_uint sharding_p2p_poc.Text.digits_loop
    sharding_p2p_poc.Text.parse_uint sharding_p2p_poc.Text.scan_digits
    sharding_p2p_poc.Discovery.toggle sharding_p2p_poc.PrefTable.is_peer_listening_shard
    sharding_p2p_poc.PrefTable.add_peer_listening_shard sharding_p2p_poc.Discovery.global_find_peers
    sharding_p2p_poc.Discovery.peer_infos sharding_p2p_poc.Manager.Connect.connect_all
    sharding_p2p_poc.Manager.Connect.connect_shard_nodes
    sharding_p2p_poc.Manager.Connect.drop_random sharding_p2p_poc.Manager.Connect.peer_set
    sharding_p2p_poc.Manager.in_shards sharding_p2p_poc.Manager.subscribe_collation
    sharding_p2p_poc.Manager.subscribe_general sharding_p2p_poc.Manager.subscribe_topic
    sharding_p2p_poc.PrefTable.get_peer_listening_shard
    sharding_p2p_poc.PrefTable.get_peers_in_shard sharding_p2p_poc.PrefTable.is_peer_recorded
    sharding_p2p_poc.PrefTable.peers_loop sharding_p2p_poc.PrefTable.remove_peer_listening_shard
    sharding_p2p_poc.Prelude.Assoc.insert sharding_p2p_poc.Prelude.contains
    sharding_p2p_poc.Prelude.bytes_beq sharding_p2p_poc.Shards.get_shards
    sharding_p2p_poc.Shards.get_shards_loop sharding_p2p_poc.Shards.is_shard_set
    sharding_p2p_poc.Shards.new_listening_shards sharding_p2p_poc.Shards.set_shard
    sharding_p2p_poc.Shards.shard_id_to_bit_index sharding_p2p_poc.Shards.to_bytes
    sharding_p2p_poc.Shards.unset_shard sharding_p2p_poc.Text.get_collations_topic
    sharding_p2p_poc.Text.remove_all sharding_p2p_poc.Text.shard_topic_to_shard_id
makes = refl

make_node-Made_example : Made network true made
make_node-Made_example =
    make_node-Made network libraries default_ip (pos 10000) (pos 0) true [] made makes

-- The address [::1]
colons_in_ip_example :
    choose_notifier network libraries codecs
      (address (codes "[" ++ (b':' ∷ ([] ++ (b':' ∷ codes "1]")))) (pos 0))
    ≡ or_fatal (
        new_rpc_event_notifier network libraries codecs
          (address (codes "[" ++ (b':' ∷ ([] ++ (b':' ∷ codes "1]")))) (pos 0)))
colons_in_ip_example =
    colons_in_ip network libraries codecs (codes "[") [] (codes "1]") (pos 0) (ground arith) tt
      (unfold bytes_beq in refl)

abbrev flags : Flags
flags = record (default_flags []) { do_bootstrapping = true }

abbrev service_of : Outcome (EventNotifier (Node network) × Service network) → Service network
service_of (ok started) = started.1
service_of (fail e) = record { node = node; running = false; stopping = false }
service_of panic = record { node = node; running = false; stopping = false }

abbrev service : Service network
service =
    service_of (start_server network libraries codecs flags rpc_addr (address default_ip (pos 0)))

starts :
    start_server network libraries codecs flags rpc_addr (address default_ip (pos 0))
    ≡ ok (mock_event_notifier, service)
unfolding sharding_p2p_poc.Main.set_up_tracer sharding_p2p_poc.Main.start_server
    sharding_p2p_poc.Main.choose_notifier sharding_p2p_poc.Main.bootnodes_of
    sharding_p2p_poc.Main.make_node sharding_p2p_poc.Main.new_node
    sharding_p2p_poc.Main.new_request_protocol sharding_p2p_poc.Main.run_rpc_server
    sharding_p2p_poc.Server.Hosts.make_key sharding_p2p_poc.Manager.new_shard_manager
    sharding_p2p_poc.Text.split sharding_p2p_poc.Text.split_loop
    sharding_p2p_poc.Main.new_rpc_event_notifier sharding_p2p_poc.Bootstrap.convert_peers
    sharding_p2p_poc.Bootstrap.start_bootstrapping sharding_p2p_poc.Bootstrap.bootstrap_connect
    sharding_p2p_poc.Manager.listen_shard sharding_p2p_poc.Manager.is_shard_listened
    sharding_p2p_poc.Manager.get_listening_shards
    sharding_p2p_poc.PrefTable.get_peer_listening_shard_slice sharding_p2p_poc.Prelude.Assoc.lookup
    sharding_p2p_poc.State.initial_node sharding_p2p_poc.PrefTable.new_shard_pref_table
    sharding_p2p_poc.Discovery.new_global_table sharding_p2p_poc.Discovery.global_advertise
    sharding_p2p_poc.Text.parse_int sharding_p2p_poc.Text.format_int
    sharding_p2p_poc.Text.format_uint sharding_p2p_poc.Text.digits_loop
    sharding_p2p_poc.Text.parse_uint sharding_p2p_poc.Text.scan_digits
    sharding_p2p_poc.Discovery.toggle sharding_p2p_poc.PrefTable.is_peer_listening_shard
    sharding_p2p_poc.PrefTable.add_peer_listening_shard sharding_p2p_poc.Discovery.global_find_peers
    sharding_p2p_poc.Discovery.peer_infos sharding_p2p_poc.Manager.Connect.connect_all
    sharding_p2p_poc.Manager.Connect.connect_shard_nodes
    sharding_p2p_poc.Manager.Connect.drop_random sharding_p2p_poc.Manager.Connect.peer_set
    sharding_p2p_poc.Manager.in_shards sharding_p2p_poc.Manager.subscribe_collation
    sharding_p2p_poc.Manager.subscribe_general sharding_p2p_poc.Manager.subscribe_topic
    sharding_p2p_poc.PrefTable.get_peer_listening_shard
    sharding_p2p_poc.PrefTable.get_peers_in_shard sharding_p2p_poc.PrefTable.is_peer_recorded
    sharding_p2p_poc.PrefTable.peers_loop sharding_p2p_poc.PrefTable.remove_peer_listening_shard
    sharding_p2p_poc.Prelude.Assoc.insert sharding_p2p_poc.Prelude.contains
    sharding_p2p_poc.Prelude.bytes_beq sharding_p2p_poc.Shards.get_shards
    sharding_p2p_poc.Shards.get_shards_loop sharding_p2p_poc.Shards.is_shard_set
    sharding_p2p_poc.Shards.new_listening_shards sharding_p2p_poc.Shards.set_shard
    sharding_p2p_poc.Shards.shard_id_to_bit_index sharding_p2p_poc.Shards.to_bytes
    sharding_p2p_poc.Shards.unset_shard sharding_p2p_poc.Text.get_collations_topic
    sharding_p2p_poc.Text.remove_all sharding_p2p_poc.Text.shard_topic_to_shard_id
starts = refl

no_bootnodes : NamesBootnodes libraries.addresses []
no_bootnodes = tt

whole_session_example :
    (s : Service network) × (start_server network libraries codecs
        (default_flags [])
        rpc_addr
        (address default_ip (pos 0))
      ≡ ok (mock_event_notifier, s))
    × Dialogue network libraries codecs streams unavailable json dial rpc_addr network-IsCalm
        dial-Dials s 3 7
        (42 ∷ [])
        42
        []
whole_session_example =
    whole_session network libraries codecs streams unavailable json dial rpc_addr network-IsCalm
      dial-Dials (default_flags []) libraries-LetsStart no_bootnodes (ground arith) refl 3 7
      (42 ∷ []) 42 [] (omega arith) (omega arith) (omega arith)
