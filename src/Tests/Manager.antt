-- ===== src/Tests/Manager.antt =====
-- shardmanager.go: runs of the manager.
use sharding_p2p_poc.Prelude.{
  ℕ, ℤ, pos, Bytes, bytes_eq, bytes_beq, sym, contains, ◌∙◌, ◌==◌, ==_refl, if◌then◌else◌, ◌↔◌, ◌≡◌,
  ◌≢◌, refl, arith, true, false, Bool, List, [], ◌∷◌, none, some,
}
use sharding_p2p_poc.Prelude.Assoc.{has_key, lookup, insert}
use sharding_p2p_poc.Outcome.{ok, fail, panic, message}
use sharding_p2p_poc.Text.{get_collations_topic, format_int}
use sharding_p2p_poc.Shards.{num_shards}
use sharding_p2p_poc.PrefTable.{set_peer_listening_shard, new_shard_pref_table}
use sharding_p2p_poc.PrefTable.View.{listens}
use sharding_p2p_poc.PrefTable.Ops.{new_shard_pref_table-IsTable, listens-new}
use sharding_p2p_poc.Messages.{Collation}
use sharding_p2p_poc.Network.{Network}
use sharding_p2p_poc.State.{Node, Message, initial_node}
use sharding_p2p_poc.Discovery.{Discovery, new_global_table, global_find_peers}
use sharding_p2p_poc.Discovery.Laws.{new_global_table-ShardDiscovery}
use sharding_p2p_poc.Manager.{
  accepts, type_collation, listen_shard, unlisten_shard, new_shard_manager, run_validator,
  broadcast_collation_message,
}
use sharding_p2p_poc.Manager.Listen.{Joins, listen_shard-Joins}
use sharding_p2p_poc.Manager.Unlisten.{Leaves, unlisten_shard-Leaves}
use sharding_p2p_poc.Manager.Calm.{new_global_table-IsCalmDiscovery, listen_shard-calm}
use sharding_p2p_poc.Manager.Sync.{
  IsInSync, here, next, listened, Reach-IsInSync, listen_shard_failed,
}
use sharding_p2p_poc.Manager.Connect.Bounds.{Plan, connect_shard_nodes_lem}
use sharding_p2p_poc.Manager.Connect.{connect_shard_nodes}
use sharding_p2p_poc.Fixtures.{
  network, network-IsCalm, refusing, node, table-IsTable, alice, bob, host, alice_info,
}

abbrev table_of : (net : Network) → Discovery (Node net)
table_of = new_global_table

host_without_7 : listens node.shard_pref_table host 7 ≡ false
unfolding set_peer_listening_shard new_shard_pref_table insert lookup bytes_beq
host_without_7 = refl

host_with_42 : listens node.shard_pref_table host 42 ≡ true
unfolding set_peer_listening_shard new_shard_pref_table insert lookup bytes_beq
host_with_42 = refl

listen_shard-Joins_example :
    Joins network node 7 (listen_shard network (table_of network) (pos 3) (pos 7) node)
listen_shard-Joins_example =
    listen_shard-Joins network (table_of network) (new_global_table-ShardDiscovery network) node
      (pos 3) 7 table-IsTable (omega arith) host_without_7

unlisten_shard-Leaves_example :
    Leaves network node 42 (unlisten_shard network (table_of network) (pos 42) node)
unlisten_shard-Leaves_example =
    unlisten_shard-Leaves network (table_of network) (new_global_table-ShardDiscovery network) node
      42 table-IsTable (omega arith) host_with_42

listen_shard-calm_example : (listen_shard network (table_of network) (pos 3) (pos 7) node).0 ≢ panic
listen_shard-calm_example =
    listen_shard-calm network network-IsCalm (table_of network)
      (new_global_table-IsCalmDiscovery network network-IsCalm)
      (new_global_table-ShardDiscovery network) node (pos 3) 7 table-IsTable (omega arith)

pub initial-IsInSync : (net : Network) (w : net.World) → IsInSync net (initial_node net w)
initial-IsInSync net w = record {
  is_table = unfold initial_node in new_shard_pref_table-IsTable;
  agree = λ s h. unfold initial_node lookup in sym (listens-new net.host_id s);
}

abbrev listening : Node network
listening = (listen_shard network (table_of network) (pos 3) (pos 7) (initial_node network 0)).1

returns_7 :
    (listen_shard network (table_of network) (pos 3) (pos 7) (initial_node network 0)).0 ≡ ok tt
unfolding listen_shard sharding_p2p_poc.Manager.is_shard_listened
    sharding_p2p_poc.Manager.get_listening_shards
    sharding_p2p_poc.PrefTable.get_peer_listening_shard_slice lookup initial_node
    new_shard_pref_table new_global_table sharding_p2p_poc.Discovery.global_advertise
    sharding_p2p_poc.Text.parse_int format_int sharding_p2p_poc.Text.format_uint
    sharding_p2p_poc.Text.digits_loop sharding_p2p_poc.Text.parse_uint
    sharding_p2p_poc.Text.scan_digits sharding_p2p_poc.Discovery.toggle
    sharding_p2p_poc.PrefTable.is_peer_listening_shard
    sharding_p2p_poc.PrefTable.add_peer_listening_shard global_find_peers
    sharding_p2p_poc.Discovery.peer_infos sharding_p2p_poc.Manager.Connect.connect_all
    connect_shard_nodes sharding_p2p_poc.Manager.Connect.drop_random
    sharding_p2p_poc.Manager.Connect.peer_set sharding_p2p_poc.Manager.in_shards
    sharding_p2p_poc.Manager.subscribe_collation sharding_p2p_poc.Manager.subscribe_general
    sharding_p2p_poc.Manager.subscribe_topic sharding_p2p_poc.PrefTable.get_peer_listening_shard
    sharding_p2p_poc.PrefTable.get_peers_in_shard sharding_p2p_poc.PrefTable.is_peer_recorded
    sharding_p2p_poc.PrefTable.peers_loop sharding_p2p_poc.PrefTable.remove_peer_listening_shard
    insert sharding_p2p_poc.Prelude.contains bytes_beq sharding_p2p_poc.Shards.get_shards
    sharding_p2p_poc.Shards.get_shards_loop sharding_p2p_poc.Shards.is_shard_set
    sharding_p2p_poc.Shards.new_listening_shards sharding_p2p_poc.Shards.set_shard
    sharding_p2p_poc.Shards.shard_id_to_bit_index sharding_p2p_poc.Shards.to_bytes
    sharding_p2p_poc.Shards.unset_shard get_collations_topic sharding_p2p_poc.Text.remove_all
    sharding_p2p_poc.Text.shard_topic_to_shard_id
returns_7 = refl

listens_to_7 :
    listen_shard network (table_of network) (pos 3) (pos 7) (initial_node network 0)
    ≡ (ok tt, listening)
listens_to_7 = λ i. (returns_7 i, listening)

Reach-IsInSync_example : IsInSync network listening
Reach-IsInSync_example =
    Reach-IsInSync network (table_of network) (new_global_table-ShardDiscovery network)
      (initial-IsInSync network 0) (next here (listened (pos 3) 7 (omega arith) listens_to_7))

starts : (new_shard_manager network (initial_node network 0)).0 ≡ ok tt
unfolding new_shard_manager sharding_p2p_poc.Manager.subscribe_topic
starts = refl

abbrev refused : Node refusing
refused = (listen_shard refusing (table_of refusing) (pos 3) (pos 7) (initial_node refusing 0)).1

refused_7 :
    (listen_shard refusing (table_of refusing) (pos 3) (pos 7) (initial_node refusing 0)).0
    ≡ fail (message "refused")
unfolding listen_shard sharding_p2p_poc.Manager.is_shard_listened
    sharding_p2p_poc.Manager.get_listening_shards
    sharding_p2p_poc.PrefTable.get_peer_listening_shard_slice lookup initial_node
    new_shard_pref_table new_global_table sharding_p2p_poc.Discovery.global_advertise
    sharding_p2p_poc.Text.parse_int format_int sharding_p2p_poc.Text.format_uint
    sharding_p2p_poc.Text.digits_loop sharding_p2p_poc.Text.parse_uint
    sharding_p2p_poc.Text.scan_digits sharding_p2p_poc.Discovery.toggle
    sharding_p2p_poc.PrefTable.is_peer_listening_shard
    sharding_p2p_poc.PrefTable.add_peer_listening_shard global_find_peers
    sharding_p2p_poc.Discovery.peer_infos sharding_p2p_poc.Manager.Connect.connect_all
    connect_shard_nodes sharding_p2p_poc.Manager.Connect.drop_random
    sharding_p2p_poc.Manager.Connect.peer_set sharding_p2p_poc.Manager.in_shards
    sharding_p2p_poc.Manager.subscribe_collation sharding_p2p_poc.Manager.subscribe_general
    sharding_p2p_poc.Manager.subscribe_topic sharding_p2p_poc.PrefTable.get_peer_listening_shard
    sharding_p2p_poc.PrefTable.get_peers_in_shard sharding_p2p_poc.PrefTable.is_peer_recorded
    sharding_p2p_poc.PrefTable.peers_loop sharding_p2p_poc.PrefTable.remove_peer_listening_shard
    insert sharding_p2p_poc.Prelude.contains bytes_beq sharding_p2p_poc.Shards.get_shards
    sharding_p2p_poc.Shards.get_shards_loop sharding_p2p_poc.Shards.is_shard_set
    sharding_p2p_poc.Shards.new_listening_shards sharding_p2p_poc.Shards.set_shard
    sharding_p2p_poc.Shards.shard_id_to_bit_index sharding_p2p_poc.Shards.to_bytes
    sharding_p2p_poc.Shards.unset_shard get_collations_topic sharding_p2p_poc.Text.remove_all
    sharding_p2p_poc.Text.shard_topic_to_shard_id
refused_7 = refl

no_subscription :
    listen_shard refusing (table_of refusing) (pos 3) (pos 7) (initial_node refusing 0)
    ≡ (fail (message "refused"), refused)
no_subscription = λ i. (refused_7 i, refused)

listen_shard_failed_example :
    (listens refused.shard_pref_table host 7 ≡ true)
    × (has_key (get_collations_topic (pos 7)) refused.subs ≡ false)
    × (listen_shard refusing (table_of refusing) (pos 3) (pos 7) refused ≡ (ok tt, refused))
listen_shard_failed_example =
    listen_shard_failed refusing (table_of refusing) (new_global_table-ShardDiscovery refusing)
      (initial_node refusing 0) refused (pos 3) 7 (message "refused") (initial-IsInSync refusing 0)
      (omega arith) (unfold initial_node in listens-new host 7) no_subscription

abbrev a_collation : Collation
a_collation = record { shard_id = pos 7; period = pos 4; blobs = 9 ∷ 9 ∷ [] }

abbrev a_message : Message
a_message = record { from = alice; payload = 0 ∷ 1 ∷ 0 ∷ 7 ∷ 0 ∷ 4 ∷ 9 ∷ 9 ∷ [] }

subscribed_to_7 : has_key (get_collations_topic (pos 7)) listening.subs ≡ true
subscribed_to_7 =
    let j =
      listen_shard-Joins network (table_of network) (new_global_table-ShardDiscovery network)
        (initial_node network 0) (pos 3) 7 (unfold initial_node in new_shard_pref_table-IsTable)
        (omega arith) (unfold initial_node in listens-new host 7) in
    j.entered returns_7 (get_collations_topic (pos 7))
    ∙ ground (arith, ==_refl (get_collations_topic (pos 7)))

alice_in_42 : global_find_peers network (format_int (pos 42)) node ≡ (ok (alice_info ∷ []), node)
unfolding global_find_peers sharding_p2p_poc.Text.parse_int
    sharding_p2p_poc.Text.shard_topic_to_shard_id sharding_p2p_poc.Text.remove_all format_int
    sharding_p2p_poc.Text.format_uint sharding_p2p_poc.Text.digits_loop
    sharding_p2p_poc.Text.parse_uint sharding_p2p_poc.Text.scan_digits
    sharding_p2p_poc.PrefTable.get_peers_in_shard set_peer_listening_shard insert
    new_shard_pref_table bytes_beq sharding_p2p_poc.Shards.is_shard_set
    sharding_p2p_poc.Shards.shard_id_to_bit_index
alice_in_42 = refl

connect_shard_nodes_lem_example :
    Plan network (table_of network) node 3 (pos 42) (bob ∷ []) (alice_info ∷ [])
connect_shard_nodes_lem_example =
    connect_shard_nodes_lem network (table_of network) node 3 (pos 42) (alice_info ∷ [])
      (unfold contains in (refl, tt)) (omega arith) (unfold new_global_table in alice_in_42)
