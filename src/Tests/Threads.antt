-- ===== src/Tests/Threads.antt =====
-- shardmanager.go: concurrent calls.
use sharding_p2p_poc.Prelude.{
  ℕ, ◌-◌, ◌≤◌, ◌≢◌, ℤ, pos, false, true, ◌≡◌, refl, arith, List, [], ◌∷◌,
}
use sharding_p2p_poc.Outcome.{ok, panic}
use sharding_p2p_poc.PrefTable.Ops.{new_shard_pref_table-IsTable, listens-new}
use sharding_p2p_poc.State.{Node, initial_node}
use sharding_p2p_poc.Discovery.{Discovery, new_global_table}
use sharding_p2p_poc.Discovery.Laws.{new_global_table-ShardDiscovery}
use sharding_p2p_poc.Manager.Threads.{Call, listening, checking, ended, move}
use sharding_p2p_poc.Manager.Threads.Stands.{prefers, subscribed}
use sharding_p2p_poc.Manager.Threads.Safety.{System, Reach, start, later, pick}
use sharding_p2p_poc.Manager.Threads.Race.{turn, run, in_turns, all_checking, listen_twice}
use sharding_p2p_poc.Tests.Manager.{initial-IsInSync}
use sharding_p2p_poc.Manager.Calm.{new_global_table-IsCalmDiscovery}
use sharding_p2p_poc.Manager.Threads.Progress.{turns_left, Reach-turns}
use sharding_p2p_poc.Fixtures.{network, network-IsCalm, host}

abbrev started : Node network
started = initial_node network 0

abbrev discovery : Discovery (Node network)
discovery = new_global_table network

-- The thread `i` calls `ListenShard` for the shard `i`.
abbrev listens_to_own : ℕ → Call
listens_to_own i = listening (pos 3) i

abbrev thread : ℕ → System network → System network
thread i s = turn network discovery listens_to_own i s

-- Two threads take turns.
abbrev both_ended : System network
both_ended = thread 1 (
    thread 0 (
      thread 1 (
        thread 0
          (thread 1 (thread 0 (thread 1 (thread 0 (all_checking network discovery started))))))))

both_ended-Reach : Reach network discovery 2 listens_to_own started both_ended
both_ended-Reach =
    later
      (later
        (later
          (later
            (later
              (later (later (later start (pick 0 (omega arith))) (pick 1 (omega arith)))
                (pick 0 (omega arith)))
              (pick 1 (omega arith)))
            (pick 0 (omega arith)))
          (pick 1 (omega arith)))
        (pick 0 (omega arith)))
      (pick 1 (omega arith))

second_ends :
    (run network discovery
        (λ i. listening (pos 3) 7)
        (in_turns network discovery)
        (all_checking network discovery started)).place
      1
    ≡ ended (ok tt)
unfolding run sharding_p2p_poc.Manager.Threads.move sharding_p2p_poc.Manager.listen_shard
    sharding_p2p_poc.Manager.is_shard_listened sharding_p2p_poc.Manager.get_listening_shards
    sharding_p2p_poc.PrefTable.get_peer_listening_shard_slice sharding_p2p_poc.Prelude.Assoc.lookup
    sharding_p2p_poc.State.initial_node sharding_p2p_poc.PrefTable.new_shard_pref_table
    sharding_p2p_poc.Discovery.new_global_table sharding_p2p_poc.Discovery.global_advertise
    sharding_p2p_poc.Text.parse_int sharding_p2p_poc.Text.format_int
    sharding_p2p_poc.Text.format_uint sharding_p2p_poc.Text.digits_loop
    sharding_p2p_poc.Text.parse_uint sharding_p2p_poc.Text.scan_digits
    sharding_p2p_poc.Discovery.toggle sharding_p2p_poc.PrefTable.is_peer_listening_shard
    sharding_p2p_poc.PrefTable.add_peer_listening_shard sharding_p2p_poc.Discovery.global_find_peers
    sharding_p2p_poc.Discovery.peer_infos sharding_p2p_poc.Manager.Connect.connect_all
    sharding_p2p_poc.Manager.Connect.connect_shard_nodes
    sharding_p2p_poc.Manager.Connect.drop_random sharding_p2p_poc.Manager.Connect.peer_set
    sharding_p2p_poc.Manager.in_shards sharding_p2p_poc.Manager.subscribe_collation
    sharding_p2p_poc.Manager.subscribe_general sharding_p2p_poc.Manager.subscribe_topic
    sharding_p2p_poc.PrefTable.get_peer_listening_shard
    sharding_p2p_poc.PrefTable.get_peers_in_shard sharding_p2p_poc.PrefTable.is_peer_recorded
    sharding_p2p_poc.PrefTable.peers_loop sharding_p2p_poc.PrefTable.remove_peer_listening_shard
    sharding_p2p_poc.Prelude.Assoc.insert sharding_p2p_poc.Prelude.contains
    sharding_p2p_poc.Prelude.bytes_beq sharding_p2p_poc.Shards.get_shards
    sharding_p2p_poc.Shards.get_shards_loop sharding_p2p_poc.Shards.is_shard_set
    sharding_p2p_poc.Shards.new_listening_shards sharding_p2p_poc.Shards.set_shard
    sharding_p2p_poc.Shards.shard_id_to_bit_index sharding_p2p_poc.Shards.to_bytes
    sharding_p2p_poc.Shards.unset_shard sharding_p2p_poc.Text.get_collations_topic
    sharding_p2p_poc.Text.remove_all sharding_p2p_poc.Text.shard_topic_to_shard_id
second_ends = refl

listen_twice_example :
    (prefers network
        (run network discovery
          (λ i. listening (pos 3) 7)
          (in_turns network discovery)
          (all_checking network discovery started)).node
        7
      ≡ false)
    × (subscribed network
          (run network discovery
            (λ i. listening (pos 3) 7)
            (in_turns network discovery)
            (all_checking network discovery started)).node
          7
        ≡ true)
listen_twice_example =
    listen_twice network discovery (new_global_table-ShardDiscovery network) (pos 3) 7 started
      (unfold initial_node in new_shard_pref_table-IsTable) (omega arith)
      (unfold initial_node in listens-new host 7) second_ends

Reach-turns_example :
    (both_ended.place 0 ≢ ended panic)
    × (turns_left (both_ended.place 0) ≤ 4)
    × (turns_left (move network discovery (listens_to_own 0) (both_ended.place 0) both_ended.node).0
        ≤ turns_left (both_ended.place 0) - 1)
Reach-turns_example =
    Reach-turns network discovery network-IsCalm
      (new_global_table-IsCalmDiscovery network network-IsCalm)
      (new_global_table-ShardDiscovery network) 2 listens_to_own (λ i h. omega arith)
      (initial-IsInSync network 0).is_table both_ended-Reach 0 (omega arith)
