-- ===== src/Requests/Answers.antt =====
-- requests.go, lines 60 to 120: both ends of a shard-peer request.
use sharding_p2p_poc.Prelude.{
  ℕ, nat_eq, ◌<◌, ◌≤◌, ℤ, pos, negsuc, int_eq, int_beq_iff, Bytes, bytes_eq, true, ◌≡◌, refl, arith,
  List, [], ◌∷◌, map, Option, none, some, contains, All, length, inl, inr, if◌then◌else◌,
}
use sharding_p2p_poc.Prelude.Assoc.{Assoc, lookup, insert, Distinct, lookup-insert, insert-Distinct}
use sharding_p2p_poc.Outcome.{ok, panic}
use sharding_p2p_poc.Messages.{Codecs, Peers, ShardPeerRequest}
use sharding_p2p_poc.Peers.{peer_ids_to_pb_peers, PrettyDecodes, pb_peers-round_trip}
use sharding_p2p_poc.Shards.{ListeningShards, num_shards}
use sharding_p2p_poc.PrefTable.{ShardPrefTable, get_peers_in_shard}
use sharding_p2p_poc.PrefTable.View.{listens, IsTable}
use sharding_p2p_poc.PrefTable.Peers.{
  listeners, get_peers_in_shard-listeners, contains-listeners_table, get_peers_in_shard-no_error,
  negative_search,
}
use sharding_p2p_poc.Network.{Network}
use sharding_p2p_poc.State.{Node}
use sharding_p2p_poc.Requests.{
  Streams, collect_peers, read_peers, read_proto_message, answer_shard_peers, on_shard_peer_request,
}

-- The answer as a map of peer IDs.
abbrev Answer : Type 0
Answer = Assoc ℤ (List Bytes)

abbrev answer : ShardPrefTable → List ℕ → Answer → Answer
answer table [] acc = acc
answer table (s ∷ ids) acc =
    answer table ids (insert (pos s) (listeners s table.shard_pref_map) acc)

lookup-answer :
    (table : ShardPrefTable) (ids : List ℕ) (acc : Answer) (s : ℕ)
    → lookup (pos s) (answer table ids acc)
      ≡ (if contains ids s then some (listeners s table.shard_pref_map) else lookup (pos s) acc)
unfolding contains
lookup-answer table [] acc s = refl
lookup-answer table (t ∷ ids) acc s = ground (
  arith,
  lookup-answer table ids (insert (pos t) (listeners t table.shard_pref_map) acc) s,
  lookup-insert (pos t) (pos s) (listeners t table.shard_pref_map) acc,
)

Distinct-answer :
    (table : ShardPrefTable) (ids : List ℕ) (acc : Answer)
    → Distinct acc
    → Distinct (answer table ids acc)
Distinct-answer table [] acc d = d
Distinct-answer table (t ∷ ids) acc d =
    Distinct-answer table ids _ (insert-Distinct (pos t) _ acc d)

-- Entering a map into another.
abbrev enter : Answer → Answer → Answer
enter [] acc = acc
enter ((id, peers) ∷ m) acc = enter m (insert id peers acc)

abbrev or_else : Option (List Bytes) → Option (List Bytes) → Option (List Bytes)
or_else none o = o
or_else (some peers) o = some peers

lookup-enter :
    (m acc : Answer) (z : ℤ)
    → Distinct m
    → lookup z (enter m acc) ≡ or_else (lookup z m) (lookup z acc)
unfolding lookup
lookup-enter [] acc z d = refl
lookup-enter ((id, peers) ∷ m) acc z d = ground (
  arith,
  int_beq_iff id z,
  lookup-enter m (insert id peers acc) z d.1,
  lookup-insert id z peers acc,
)

module _ (codecs : Codecs) where
  encode_all : Answer → Assoc ℤ Peers
  encode_all [] = []
  encode_all ((id, peers) ∷ m) = (id, peer_ids_to_pb_peers codecs peers) ∷ encode_all m

  encode_all-insert :
      (id : ℤ) (peers : List Bytes) (m : Answer)
      → insert id (peer_ids_to_pb_peers codecs peers) (encode_all m)
        ≡ encode_all (insert id peers m)
  unfolding encode_all insert
  encode_all-insert id peers [] = refl
  encode_all-insert id peers ((j, ps) ∷ m) = ground (arith, encode_all-insert id peers m)

  collect_peers-answer :
      (table : ShardPrefTable) (ids : List ℕ) (acc : Answer)
      → IsTable table
      → All (λ s. s < num_shards) ids
      → collect_peers codecs table (map pos ids) (encode_all acc)
        ≡ ok (encode_all (answer table ids acc))
  unfolding collect_peers
  collect_peers-answer table [] acc w h = refl
  collect_peers-answer table (s ∷ ids) acc w h =
      rw
        (
          get_peers_in_shard-listeners table s w h.0,
          encode_all-insert (pos s) (listeners s table.shard_pref_map) acc,
        )
        (collect_peers-answer table ids _ w h.1)

  read_peers-encode_all :
      PrettyDecodes codecs
      → (m acc : Answer) → read_peers codecs (encode_all m) acc ≡ ok (enter m acc)
  unfolding read_peers encode_all
  read_peers-encode_all law [] acc = refl
  read_peers-encode_all law ((id, peers) ∷ m) acc =
      rw (pb_peers-round_trip codecs peers law) (read_peers-encode_all law m (insert id peers acc))

  -- For peer IDs that decode from their texts, a well-formed table, and requested shards below
  -- 100: the responder's loop returns a map, which the requester's loop reads without an error;
  -- the map that is read has a list for each requested shard and for no other, in which a peer
  -- stands exactly when the responder's table has it listen to the shard.
  pub shard_peer_exchange :
      (table : ShardPrefTable) (shard_ids : List ℕ)
      → PrettyDecodes codecs
      → IsTable table
      → All (λ s. s < num_shards) shard_ids
      → (sent : Assoc ℤ Peers) × (received : Assoc ℤ (List Bytes)) × (found : ℕ → List Bytes)
        × (collect_peers codecs table (map pos shard_ids) [] ≡ ok sent)
        × (read_peers codecs sent [] ≡ ok received)
        × ((s : ℕ)
            → lookup (pos s) received ≡ (if contains shard_ids s then some (found s) else none))
        × ((s : ℕ) (q : Bytes) → contains (found s) q ≡ listens table q s)
  unfolding encode_all
  shard_peer_exchange table shard_ids law w h = (
    encode_all (answer table shard_ids []),
    enter (answer table shard_ids []) [],
    λ s. listeners s table.shard_pref_map,
    collect_peers-answer table shard_ids [] w h,
    read_peers-encode_all law (answer table shard_ids []) [],
    λ s.
        unfold lookup in
        ground (
          arith,
          lookup-enter (answer table shard_ids []) [] (pos s)
              (Distinct-answer table shard_ids [] tt),
          lookup-answer table shard_ids [] s,
        ),
    λ s q. contains-listeners_table table s q w,
  )

  -- One ID that cannot be searched for ends the loop in a panic, wherever it stands.
  collect_peers-panic :
      (table : ShardPrefTable) (ids : List ℤ) (acc : Assoc ℤ Peers) (bad : ℤ)
      → contains ids bad ≡ true
      → get_peers_in_shard table bad ≡ panic
      → collect_peers codecs table ids acc ≡ panic
  unfolding collect_peers contains
  collect_peers-panic table [] acc bad h p = cc
  collect_peers-panic table (id ∷ ids) acc bad h p = elim (get_peers_in_shard-no_error table id) [
    | inl q ↦ rw q
    | inr (peers, q) ↦ rw q (
        collect_peers-panic table ids (insert id (peer_ids_to_pb_peers codecs peers) acc) bad
          (ground (arith, h, p, q, int_beq_iff id bad)) p)
  ]

-- If the handler of peer requests reads a request that names an ID from -8 down to -1951, and the
-- table has an entry of 13 bytes, then the handler panics.
pub negative_request :
    (net : Network) (streams : Streams net.World) (codecs : Codecs) (s : streams.Stream)
    (n m : Node net) (req : ShardPeerRequest) (peer : Bytes) (ls : ListeningShards) (k : ℕ)
    → read_proto_message net streams codecs codecs.shard_peer_request s n ≡ (ok req, m)
    → contains req.shard_ids (negsuc k) ≡ true
    → 7 ≤ k
    → k ≤ 1950
    → lookup peer m.shard_pref_table.shard_pref_map ≡ some ls
    → length ls.shard_bits ≡ 13
    → (on_shard_peer_request net streams codecs s n).0 ≡ panic
unfolding on_shard_peer_request answer_shard_peers
negative_request net streams codecs s n m req peer ls k read member lo hi entry len = rw (
  read,
  collect_peers-panic codecs m.shard_pref_table req.shard_ids [] (negsuc k) member
      (negative_search m.shard_pref_table peer ls k entry len lo hi),
)
