-- ===== src/Peers.antt =====
-- utils.go, lines 27 to 64: peer IDs and their base-58 texts.
use sharding_p2p_poc.Prelude.{Bytes, ◌≡◌, sym, ap, List, [], ◌∷◌, ◌++◌, map}
use mathlib.Core.List.{append_assoc, append-nil}
use sharding_p2p_poc.Outcome.{Outcome, ok, ◌>>=◌}
use sharding_p2p_poc.Messages.{Codecs, Peers}

module _ (codecs : Codecs) where
  unfoldable pub peer_id_to_string : Bytes → Bytes
  peer_id_to_string peer_id = codecs.pretty peer_id

  unfoldable pub string_to_peer_id : Bytes → Outcome Bytes
  string_to_peer_id peer_id_str = codecs.idb58_decode peer_id_str

  peers_string_loop : List Bytes → List Bytes → Outcome (List Bytes)
  peers_string_loop [] peer_ids = ok peer_ids
  peers_string_loop (peer_str ∷ peers_str) peer_ids = do
    peer_id ← string_to_peer_id peer_str
    peers_string_loop peers_str (peer_ids ++ peer_id ∷ [])

  unfoldable pub peers_string_to_peer_ids : List Bytes → Outcome (List Bytes)
  unfolding peers_string_loop string_to_peer_id
  peers_string_to_peer_ids peers_str = peers_string_loop peers_str []

  peer_ids_loop : List Bytes → List Bytes → List Bytes
  peer_ids_loop [] peer_strs = peer_strs
  peer_ids_loop (peer_id ∷ peer_ids) peer_strs =
      peer_ids_loop peer_ids (peer_strs ++ peer_id_to_string peer_id ∷ [])

  unfoldable pub peer_ids_to_peers_string : List Bytes → List Bytes
  unfolding peer_ids_loop peer_id_to_string
  peer_ids_to_peers_string peer_ids = peer_ids_loop peer_ids []

  unfoldable pub pb_peers_to_peer_ids : Peers → Outcome (List Bytes)
  pb_peers_to_peer_ids msg = peers_string_to_peer_ids msg.peers

  unfoldable pub peer_ids_to_pb_peers : List Bytes → Peers
  peer_ids_to_pb_peers peer_ids = record { peers = peer_ids_to_peers_string peer_ids }

  -- The texts of peer IDs are decoded to them.
  abbrev pub PrettyDecodes : Type 0
  PrettyDecodes = (p : Bytes) → codecs.idb58_decode (codecs.pretty p) ≡ ok p

  peer_ids_loop-map :
      (ids strs : List Bytes) → peer_ids_loop ids strs ≡ strs ++ map codecs.pretty ids
  unfolding peer_ids_loop peer_id_to_string
  peer_ids_loop-map [] strs = sym (append-nil strs)
  peer_ids_loop-map (p ∷ ids) strs = simp (peer_ids_loop-map ids, append_assoc)

  peers_string_loop-pretty :
      PrettyDecodes
      → (ids acc : List Bytes) → peers_string_loop (map codecs.pretty ids) acc ≡ ok (acc ++ ids)
  unfolding peers_string_loop string_to_peer_id
  peers_string_loop-pretty h [] acc = ap ok (sym (append-nil acc))
  peers_string_loop-pretty h (p ∷ ids) acc =
      simp (h p, peers_string_loop-pretty h ids, append_assoc)

  -- For peer IDs that decode from their texts, peers that are sent in a message are read back, in
  -- their order.
  pub pb_peers-round_trip :
      (peer_ids : List Bytes)
      → PrettyDecodes
      → pb_peers_to_peer_ids (peer_ids_to_pb_peers peer_ids) ≡ ok peer_ids
  unfolding pb_peers_to_peer_ids peer_ids_to_pb_peers peers_string_to_peer_ids
      peer_ids_to_peers_string
  pb_peers-round_trip peer_ids h =
      rw (peer_ids_loop-map peer_ids []) (peers_string_loop-pretty h peer_ids [])
