-- ===== src/Tests/Readers.antt =====
-- shardmanager.go: the reader of announcements.
use sharding_p2p_poc.Prelude.{bytes_beq, refl, List, [], ◌∷◌}
use sharding_p2p_poc.Outcome.{Outcome, ok, fail, message}
use sharding_p2p_poc.State.{Message, initial_node}
use sharding_p2p_poc.Network.{shard_pref_handler}
use sharding_p2p_poc.Shards.{from_bytes}
use sharding_p2p_poc.Manager.{read_messages}
use sharding_p2p_poc.Manager.Readers.{Announcements, Read, read_messages_lem}
use sharding_p2p_poc.Tests.Manager.{initial-IsInSync}
use sharding_p2p_poc.Fixtures.{network, alice, bob, some_shards, some_shards-IsWellFormed}

-- Alice and Bob announce three shards, and then the subscription fails.
abbrev received : List (Outcome Message)
received =
    ok (record { from = alice; payload = some_shards.shard_bits })
    ∷ ok (record { from = bob; payload = some_shards.shard_bits })
    ∷ fail (message "cancelled")
    ∷ []

received-Announcements : Announcements network received
unfolding bytes_beq from_bytes
received-Announcements = (refl, some_shards-IsWellFormed, (refl, some_shards-IsWellFormed, tt))

read_messages_lem_example :
    Read network
      (initial_node network 0)
      received
      (read_messages network shard_pref_handler received (initial_node network 0))
read_messages_lem_example =
    read_messages_lem network received (initial_node network 0) received-Announcements
      (initial-IsInSync network 0)
