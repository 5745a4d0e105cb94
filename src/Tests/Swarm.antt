-- ===== src/Tests/Swarm.antt =====
-- discovery.go and shardmanager.go: two nodes and the announcement of one of them.
use sharding_p2p_poc.Prelude.{
  ℕ, pos, Bytes, bytes_eq, bytes_beq, contains, false, ◌==◌, get_elem?, some, ◌≡◌, refl, arith,
  List, [], ◌∷◌, All,
}
use sharding_p2p_poc.Outcome.{ok}
use sharding_p2p_poc.PrefTable.{new_shard_pref_table, get_peers_in_shard}
use sharding_p2p_poc.PrefTable.View.{listens}
use sharding_p2p_poc.PrefTable.Ops.{new_shard_pref_table-IsTable}
use sharding_p2p_poc.Swarm.{
  Swarm, announce, deliver, catch_up, Reach, here, next, announced, delivered, new_swarm, IsCurrent,
}
use sharding_p2p_poc.Swarm.Announces.{Announces, announcement-Announces}
use sharding_p2p_poc.Swarm.Agreement.{agreement}
use sharding_p2p_poc.Swarm.CatchUp.{Knows, catch_up-agreement}
use sharding_p2p_poc.Swarm.Finding.{Finds, find_peers-agreement}
use sharding_p2p_poc.Text.{format_int}
use sharding_p2p_poc.Network.{PeerInfo}
use sharding_p2p_poc.State.{Node}
use sharding_p2p_poc.Discovery.{global_find_peers}
use sharding_p2p_poc.Discovery.Find.{ids, bare}
use sharding_p2p_poc.Fixtures.{network, node, host, alice, bob}

abbrev alice_announces : Announces alice new_shard_pref_table 7
alice_announces =
    announcement-Announces alice new_shard_pref_table 7 new_shard_pref_table-IsTable (omega arith)

abbrev alice_again : Announces alice alice_announces.after 9
alice_again =
    announcement-Announces alice alice_announces.after 9 alice_announces.is_table (omega arith)

abbrev first : Bytes
first = alice_announces.bytes

abbrev second : Bytes
second = alice_again.bytes

-- Alice has announced the shards 7 and 9, and nobody has handled it.
abbrev announced_twice : Swarm
announced_twice =
    announce alice alice_again.after second (announce alice alice_announces.after first new_swarm)

announced_twice-Reach : Reach new_swarm announced_twice
announced_twice-Reach =
    next
      (next here
        (announced alice 7 alice_announces.after first (omega arith) alice_announces.returned))
      (announced alice 9 alice_again.after second (omega arith)
        (unfold bytes_beq in alice_again.returned))

-- Bob handles the second announcement, the first, and the second again.
abbrev out_of_order : Swarm
out_of_order =
    deliver alice bob second (deliver alice bob first (deliver alice bob second announced_twice))

apart : (alice == bob) ≡ false
unfolding bytes_beq
apart = refl

published_first : get_elem? (announced_twice.published alice) 1 ≡ some first
unfolding bytes_beq
published_first = refl

published_second : get_elem? (announced_twice.published alice) 0 ≡ some second
unfolding bytes_beq
published_second = refl

out_of_order-Reach : Reach new_swarm out_of_order
out_of_order-Reach =
    next
      (next (next announced_twice-Reach (delivered alice bob 0 second apart published_second))
        (delivered alice bob 1 first apart published_first))
      (delivered alice bob 0 second apart published_second)

bob-IsCurrent : IsCurrent out_of_order alice bob
unfolding bytes_beq
bob-IsCurrent = refl

agreement_example :
    (peers : List Bytes) × (get_peers_in_shard (out_of_order.table bob) (pos 7) ≡ ok peers)
    × (contains peers alice ≡ listens (out_of_order.table alice) alice 7)
agreement_example = agreement out_of_order-Reach alice bob 7 apart bob-IsCurrent (omega arith)

catch_up-agreement_example :
    Reach announced_twice (catch_up ((alice, bob) ∷ (alice, host) ∷ []) announced_twice)
    × ((c : Bytes) (t : ℕ)
        → listens ((catch_up ((alice, bob) ∷ (alice, host) ∷ []) announced_twice).table c) c t
          ≡ listens (announced_twice.table c) c t)
    × All
        (Knows announced_twice (catch_up ((alice, bob) ∷ (alice, host) ∷ []) announced_twice))
        ((alice, bob) ∷ (alice, host) ∷ [])
catch_up-agreement_example =
    catch_up-agreement announced_twice-Reach ((alice, bob) ∷ (alice, host) ∷ [])
      (unfold bytes_beq in (refl, (refl, tt)))

-- The host handles the second announcement only; Bob has announced nothing.
abbrev lossy : Swarm
lossy = deliver alice host second announced_twice

lossy-Reach : Reach new_swarm lossy
lossy-Reach =
    next announced_twice-Reach
      (delivered alice host 0 second (unfold bytes_beq in refl) published_second)

-- The node of the fixtures, with the table of the host
abbrev informed : Node network
informed = record node { shard_pref_table = lossy.table host }

find_peers-agreement_example :
    (infos : List PeerInfo) × (global_find_peers network (format_int (pos 7)) informed
      ≡ (ok infos, informed))
    × (contains (ids infos) host ≡ false)
    × Finds lossy 7 infos (alice ∷ bob ∷ [])
find_peers-agreement_example =
    find_peers-agreement lossy-Reach network informed (alice ∷ bob ∷ []) 7 (format_int (pos 7))
      (unfold bytes_beq in ((refl, refl), ((refl, refl), tt))) refl (omega arith) (bare refl)
