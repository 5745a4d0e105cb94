-- ===== src/Server/Preferences.antt =====
-- rpcserver.go, lines 130 to 246: DiscoverShard, SubscribeShard, UnsubscribeShard and
-- GetSubscribedShard.
use sharding_p2p_poc.Prelude.{ℤ, Bytes, bytes_eq, List, [], ◌∷◌, ◌++◌, Option, none, some, map}
use sharding_p2p_poc.Prelude.Assoc.{Assoc, insert}
use sharding_p2p_poc.Outcome.{Outcome, ok, fail, panic, Error}
use sharding_p2p_poc.Exec.{Exec, pure, attempt, ◌>>=◌}
use sharding_p2p_poc.Text.{format_int}
use sharding_p2p_poc.Messages.{Codecs, Peers}
use sharding_p2p_poc.Peers.{peer_ids_to_pb_peers}
use sharding_p2p_poc.Network.{Network, PeerInfo}
use sharding_p2p_poc.State.{Node}
use sharding_p2p_poc.Discovery.{Discovery}
use sharding_p2p_poc.Manager.{get_listening_shards, listen_shard, unlisten_shard}

-- The IDs whose calls succeeded, which are traced.
abbrev pub succeeded : Option Error → ℤ → List ℤ → List ℤ
succeeded none shard_id ids = ids ++ shard_id ∷ []
succeeded (some e) shard_id ids = ids

module _ (net : Network) (discovery : Discovery (Node net)) where
  unfoldable pub subscribe_loop : ℤ → List ℤ → List ℤ → Exec (Node net) (List ℤ)
  subscribe_loop num_shard_peer_to_connect [] subscribed = pure subscribed
  subscribe_loop num_shard_peer_to_connect (shard_id ∷ shard_ids) subscribed = do
    failure ← attempt (listen_shard net discovery num_shard_peer_to_connect shard_id)
    subscribe_loop num_shard_peer_to_connect shard_ids (succeeded failure shard_id subscribed)

  -- The error of a shard is logged only.
  unfoldable pub subscribe_shard : ℤ → List ℤ → Exec (Node net) (Unit {0})
  subscribe_shard num_shard_peer_to_connect shard_ids = do
    subscribed ← subscribe_loop num_shard_peer_to_connect shard_ids []
    pure tt

  unfoldable pub unsubscribe_loop : List ℤ → List ℤ → Exec (Node net) (List ℤ)
  unsubscribe_loop [] unsubscribed = pure unsubscribed
  unsubscribe_loop (shard_id ∷ shard_ids) unsubscribed = do
    failure ← attempt (unlisten_shard net discovery shard_id)
    unsubscribe_loop shard_ids (succeeded failure shard_id unsubscribed)

  unfoldable pub unsubscribe_shard : List ℤ → Exec (Node net) (Unit {0})
  unsubscribe_shard shard_ids = do unsubscribed ← unsubscribe_loop shard_ids []; pure tt

  unfoldable pub get_subscribed_shard : Exec (Node net) (List ℤ)
  get_subscribed_shard = get_listening_shards net

  module _ (codecs : Codecs) where
    -- A topic whose search fails is left out of the answer.
    abbrev with_found :
        Bytes → Outcome (List PeerInfo) → Assoc Bytes Peers → Outcome (Assoc Bytes Peers)
    with_found topic (ok infos) topic_peers = ok (
        insert topic (peer_ids_to_pb_peers codecs (map (λ (p : PeerInfo). p.id) infos)) topic_peers)
    with_found topic (fail e) topic_peers = ok topic_peers
    with_found topic panic topic_peers = panic

    unfoldable pub discover_loop :
        List Bytes → Assoc Bytes Peers → Exec (Node net) (Assoc Bytes Peers)
    discover_loop [] topic_peers = pure topic_peers
    discover_loop (topic ∷ topics) topic_peers = do
      topic_peers' ← λ n.
          let found = discovery.find_peers topic n in
          (with_found topic found.0 topic_peers, found.1)
      discover_loop topics topic_peers'

    -- Without topics, the shards that the host listens to are searched for, by their numbers.
    unfoldable pub discover_shard : List Bytes → Exec (Node net) (Assoc Bytes Peers)
    discover_shard [] = do
      shard_ids ← get_listening_shards net
      discover_loop (map format_int shard_ids) []
    discover_shard (topic ∷ topics) = discover_loop (topic ∷ topics) []
