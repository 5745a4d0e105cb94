-- ===== src/Server/Search.antt =====
-- rpcserver.go, lines 130 to 168: DiscoverShard of topics, over the global table.
use sharding_p2p_poc.Prelude.{
  ℕ, ◌<◌, pos, Bytes, bytes_eq, nat_eq, nat_beq_iff, contains, ◌==◌, not, ◌&&◌, ◌≡◌, refl, arith,
  ap, ◌∙◌, List, [], ◌∷◌, none, some, map, All, if◌then◌else◌,
}
use sharding_p2p_poc.Prelude.Assoc.{Assoc, lookup, insert, lookup-insert}
use sharding_p2p_poc.Outcome.{ok}
use sharding_p2p_poc.Text.{get_collations_topic}
use sharding_p2p_poc.Shards.{num_shards}
use sharding_p2p_poc.PrefTable.View.{listens, IsTable}
use sharding_p2p_poc.PrefTable.Peers.{
  listeners, get_peers_in_shard-listeners, contains-listeners_table,
}
use sharding_p2p_poc.Messages.{Codecs, Peers}
use sharding_p2p_poc.Peers.{peer_ids_to_pb_peers}
use sharding_p2p_poc.Network.{Network, PeerInfo}
use sharding_p2p_poc.State.{Node}
use sharding_p2p_poc.Discovery.{peer_infos, global_find_peers, new_global_table}
use sharding_p2p_poc.Discovery.Find.{ids, full, parse_int-Names, contains-peer_infos}
use sharding_p2p_poc.Manager.Sync.{same_topic}
use sharding_p2p_poc.Server.Preferences.{discover_loop, discover_shard}

abbrev pub topic_of : ℕ → Bytes
topic_of s = get_collations_topic (pos s)

module _ (net : Network) (codecs : Codecs) (n : Node net) (w : IsTable n.shard_pref_table) where
  open net use {host_id}

  -- The peers that a search for a shard returns.
  abbrev pub found : ℕ → List PeerInfo
  found s = peer_infos net n.world (listeners s n.shard_pref_table.shard_pref_map)

  find : (s : ℕ) → s < num_shards → global_find_peers net (topic_of s) n ≡ (ok (found s), n)
  unfolding global_find_peers
  find s h = rw (
    parse_int-Names s (topic_of s) h (full refl),
    get_peers_in_shard-listeners n.shard_pref_table s w h,
  )

  abbrev pub entry_of : ℕ → Peers
  entry_of s = peer_ids_to_pb_peers codecs (ids (found s))

  unfoldable pub answers : List ℕ → Assoc Bytes Peers → Assoc Bytes Peers
  answers [] acc = acc
  answers (s ∷ shards) acc = answers shards (insert (topic_of s) (entry_of s) acc)

  pub discover_loop-answers :
      (shards : List ℕ) (acc : Assoc Bytes Peers)
      → All (λ s. s < num_shards) shards
      → discover_loop net (new_global_table net) codecs (map topic_of shards) acc n
        ≡ (ok (answers shards acc), n)
  unfolding discover_loop answers new_global_table
  discover_loop-answers [] acc h = refl
  discover_loop-answers (s ∷ shards) acc h =
      rw (find s h.0) (discover_loop-answers shards (insert (topic_of s) (entry_of s) acc) h.1)

  pub lookup-answers :
      (shards : List ℕ) (acc : Assoc Bytes Peers) (t : ℕ)
      → All (λ s. s < num_shards) shards
      → t < num_shards
      → lookup (topic_of t) (answers shards acc)
        ≡ (if contains shards t then some (entry_of t) else lookup (topic_of t) acc)
  unfolding answers contains
  lookup-answers [] acc t h ht = refl
  lookup-answers (s ∷ shards) acc t h ht = ground (
    arith,
    lookup-answers shards (insert (topic_of s) (entry_of s) acc) t h.1 ht,
    lookup-insert (topic_of s) (topic_of t) (entry_of s) acc,
    same_topic s t h.0 ht,
    nat_beq_iff s t,
  )

  pub contains-found :
      (t : ℕ) (q : Bytes)
      → contains (ids (found t)) q ≡ (not (host_id == q) && listens n.shard_pref_table q t)
  contains-found t q =
      contains-peer_infos net n.world (listeners t n.shard_pref_table.shard_pref_map) q
      ∙ ap (λ b. not (host_id == q) && b) (contains-listeners_table n.shard_pref_table t q w)

  -- On a well-formed table, DiscoverShard of the topics of at least one shard, all below 100, over
  -- the global table returns and does not change the node; its answer has, of the topics of shards
  -- below 100, those that were requested, each with the texts of a list in which a peer stands
  -- exactly when it listens to the shard and is not the host.
  pub discover_shard-listeners :
      (s : ℕ) (shards : List ℕ)
      → All (λ t. t < num_shards) (s ∷ shards)
      → (answer : Assoc Bytes Peers) × (peers : ℕ → List Bytes) × (discover_shard net
            (new_global_table net)
            codecs
            (map topic_of (s ∷ shards))
            n
          ≡ (ok answer, n))
        × ((t : ℕ)
            → t < num_shards
            → lookup (topic_of t) answer ≡ (
                if contains (s ∷ shards) t
                then some (peer_ids_to_pb_peers codecs (peers t))
                else none))
        × ((t : ℕ) (q : Bytes)
            → contains (peers t) q ≡ (not (host_id == q) && listens n.shard_pref_table q t))
  unfolding discover_shard
  discover_shard-listeners s shards h = (
    answers (s ∷ shards) [],
    λ t. ids (found t),
    discover_loop-answers (s ∷ shards) [] h,
    λ t ht. unfold lookup in lookup-answers (s ∷ shards) [] t h ht,
    contains-found,
  )
