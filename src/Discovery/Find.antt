-- ===== src/Discovery/Find.antt =====
-- discovery.go, lines 59 to 76: `FindPeers`, by the relation of peers and shards.
use sharding_p2p_poc.Prelude.{
  ℕ, ◌<◌, pos, Bytes, bytes_eq, bytes_beq_iff, not, ◌&&◌, ◌≡◌, ap, ◌∙◌, arith, List, [], ◌∷◌, map,
  ◌==◌, contains,
}
use sharding_p2p_poc.Outcome.{ok}
use sharding_p2p_poc.Text.{format_int, parse_int, shard_topic_to_shard_id, get_collations_topic}
use sharding_p2p_poc.Text.Topics.{parse_int-topic}
use sharding_p2p_poc.Shards.{num_shards}
use sharding_p2p_poc.PrefTable.View.{listens, IsTable}
use sharding_p2p_poc.PrefTable.Peers.{get_peers_in_shard_lem}
use sharding_p2p_poc.Network.{Network, PeerInfo}
use sharding_p2p_poc.State.{Node}
use sharding_p2p_poc.Discovery.{peer_infos, global_find_peers}

-- The two ways in which callers name a shard.
pub data Names (s : ℕ) (topic : Bytes) : Type 0 where
  bare : topic ≡ format_int (pos s) → Names s topic
  full : topic ≡ get_collations_topic (pos s) → Names s topic

pub parse_int-Names :
    (s : ℕ) (topic : Bytes)
    → s < num_shards
    → Names s topic
    → parse_int (shard_topic_to_shard_id topic) ≡ ok (pos s)
parse_int-Names s topic h (bare e) = rw e (parse_int-topic (pos s) (omega arith)).1
parse_int-Names s topic h (full e) = rw e (parse_int-topic (pos s) (omega arith)).0

abbrev pub ids : List PeerInfo → List Bytes
ids infos = map (λ (p : PeerInfo). p.id) infos

module _ (net : Network) where
  open net use {World, host_id, peer_info, peer_info-id}

  pub contains-peer_infos :
      (w : World) (peers : List Bytes) (q : Bytes)
      → contains (ids (peer_infos net w peers)) q ≡ (not (host_id == q) && contains peers q)
  unfolding contains peer_infos
  contains-peer_infos w [] q = ground arith
  contains-peer_infos w (p ∷ peers) q = ground (
    arith,
    bytes_beq_iff p host_id,
    bytes_beq_iff host_id q,
    bytes_beq_iff p q,
    peer_info-id p w,
    contains-peer_infos w peers q,
  )

  -- On a well-formed table, FindPeers of a shard below 100, named by its number or by its topic,
  -- returns and does not change the node; a peer is in the result exactly when it listens to the
  -- shard and is not the host.
  pub global_find_peers_lem :
      (n : Node net) (s : ℕ) (topic : Bytes)
      → IsTable n.shard_pref_table
      → s < num_shards
      → Names s topic
      → (infos : List PeerInfo) × (global_find_peers net topic n ≡ (ok infos, n))
        × ((q : Bytes)
            → contains (ids infos) q ≡ (not (host_id == q) && listens n.shard_pref_table q s))
  unfolding global_find_peers
  global_find_peers_lem n s topic w h named =
      let (peers, returned, members) = get_peers_in_shard_lem n.shard_pref_table s w h in
      (
        peer_infos net n.world peers,
        rw (parse_int-Names s topic h named, returned),
        λ q. contains-peer_infos n.world peers q ∙ ap (λ b. not (host_id == q) && b) (members q),
      )
