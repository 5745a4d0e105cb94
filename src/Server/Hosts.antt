-- ===== src/Server/Hosts.antt =====
-- rpcserver.go, lines 32 to 128 and 414 to 521: peers, addresses and bootstrapping; makeKey of main.go.
use sharding_p2p_poc.Prelude.{
  ℤ, Bytes, bytes_eq, codes, Bool, true, false, List, [], ◌∷◌, ◌++◌, Option, none, some,
}
use sharding_p2p_poc.Prelude.Assoc.{Assoc, insert}
use sharding_p2p_poc.Outcome
use sharding_p2p_poc.Outcome.{Outcome, ok, fail, panic, Error, message, wrapped}
use sharding_p2p_poc.Exec.{Exec, lift, gets, wrapping, ◌>>=◌, ◌>>◌}
use sharding_p2p_poc.Text.{format_int, split}
use sharding_p2p_poc.Messages.{Codecs, Peers}
use sharding_p2p_poc.Peers.{peer_ids_to_pb_peers, peer_ids_to_peers_string, string_to_peer_id}
use sharding_p2p_poc.Network.{Network}
use sharding_p2p_poc.State.{Node, external, effect}
use sharding_p2p_poc.Bootstrap.{Addresses, convert_peers, start_bootstrapping, stop_bootstrapping}

-- GenerateKeyPairWithReader on the generator of a seed, IDFromPrivateKey, NewMultiaddr
pub record Keys : Type 1 where
  pub PrivKey : Type 0
  pub generate_key : ℤ → Outcome PrivKey
  pub id_from_private_key : PrivKey → Outcome Bytes
  pub new_multiaddr : Bytes → Outcome Bytes

module _ (keys : Keys) where
  unfoldable pub make_key : ℤ → Outcome (keys.PrivKey × Bytes)
  make_key seed =
      Outcome.◌>>=◌ (keys.generate_key seed)
        λ priv. Outcome.◌>>=◌ (keys.id_from_private_key priv) λ pid. ok (priv, pid)

-- NewMultiaddr, and the methods of an address that parseAddr calls: ValueForProtocol of P_IPFS, and
-- Decapsulate, of an address that can be nil
pub record Multiaddrs : Type 1 where
  pub Multiaddr : Type 0
  pub new_multiaddr : Bytes → Outcome Multiaddr
  pub ipfs_value : Multiaddr → Outcome Bytes
  pub decapsulate : Multiaddr → Option Multiaddr → Outcome Multiaddr

abbrev or_nil {ℓ} : {A : Type ℓ} → Outcome A → Outcome (Option A)
or_nil (ok a) = ok (some a)
or_nil (fail e) = ok none
or_nil panic = panic

unfoldable pub parse_addr : (lib : Multiaddrs) → Codecs → Bytes → Outcome (Bytes × lib.Multiaddr)
parse_addr lib codecs addr = Outcome.◌>>=◌ (lib.new_multiaddr addr) λ ipfsaddr.
    Outcome.◌>>=◌ (lib.ipfs_value ipfsaddr) λ pid.
      Outcome.◌>>=◌ (codecs.idb58_decode pid) λ peer_id.
        Outcome.◌>>=◌ (or_nil (lib.new_multiaddr (codes "/ipfs/" ++ codecs.pretty peer_id)))
          λ target.
            Outcome.◌>>=◌ (lib.decapsulate ipfsaddr target) λ target_addr. ok (peer_id, target_addr)

abbrev pub tcp_address : Bytes → ℤ → Bytes
tcp_address ip port = codes "/ip4/" ++ ip ++ codes "/tcp/" ++ format_int port

module _ (net : Network) where
  open net use {
    World, host_id, host_addrs, add_addrs, connect, peer_info, network_peers, get_topics,
    list_peers, close_peer,
  }

  module _ (keys : Keys) where
    unfoldable pub add_peer : Bytes → ℤ → ℤ → Exec (Node net) (Unit {0})
    add_peer ip port seed = do
      key ←
          wrapping (wrapped "Failed to generate peer key/ID with seed") (lift (make_key keys seed))
      target_addr ←
          wrapping (wrapped "Failed to convert to multiaddr format")
            (lift (keys.new_multiaddr (tcp_address ip port)))
      effect net (add_addrs key.1 (target_addr ∷ []))
      pinfo ← gets (λ n. peer_info key.1 n.world)
      wrapping (wrapped "Failed to connect to peer") (external net (connect pinfo))

  module _ (codecs : Codecs) where
    unfoldable pub identify : Exec (Node net) (Bytes × List Bytes)
    identify = gets (λ n. (codecs.pretty host_id, host_addrs n.world))

    unfoldable pub list_peer : Exec (Node net) (List Bytes)
    list_peer = gets (λ n. peer_ids_to_peers_string codecs (network_peers n.world))

    unfoldable pub topic_loop : World → List Bytes → Assoc Bytes Peers → Assoc Bytes Peers
    topic_loop w [] topic_peers = topic_peers
    topic_loop w (topic ∷ topics) topic_peers =
        topic_loop w topics
          (insert topic (peer_ids_to_pb_peers codecs (list_peers topic w)) topic_peers)

    -- Without topics, all topics that pubsub knows
    unfoldable pub list_topic_peer : List Bytes → Exec (Node net) (Assoc Bytes Peers)
    list_topic_peer [] = gets (λ n. topic_loop n.world (get_topics n.world) [])
    list_topic_peer (topic ∷ topics) = gets (λ n. topic_loop n.world (topic ∷ topics) [])

    unfoldable pub remove_peer : Bytes → Exec (Node net) (Unit {0})
    remove_peer peer_id_str = do
      peer_id ←
          wrapping (λ e. message "failed to parse the peerID")
            (lift (string_to_peer_id codecs peer_id_str))
      wrapping (wrapped "failed to close the connection to peer")
          (external net (close_peer peer_id))

  -- The request to start or to stop. The text without an address is split into one empty part.
  unfoldable pub bootstrap : Addresses → Bool → Bytes → Exec (Node net) (Unit {0})
  bootstrap addresses true bootnodes_str = do
    bootnodes ←
        wrapping (wrapped "failed to convert bootnode address to peer info format")
          (lift (convert_peers addresses (split bootnodes_str b',')))
    wrapping (wrapped "failed to start bootstrapping") (start_bootstrapping net bootnodes)
  bootstrap addresses false bootnodes_str =
      wrapping (wrapped "failed to stop bootstrapping") (stop_bootstrapping net)
