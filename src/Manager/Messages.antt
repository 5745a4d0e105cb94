-- ===== src/Manager/Messages.antt =====
-- shardmanager.go, lines 425 to 492: the broadcasts of collations.
use sharding_p2p_poc.Prelude.{Bytes, bytes_eq, true, false, ◌≡◌, arith, []}
use sharding_p2p_poc.Prelude.Assoc.{has_key}
use sharding_p2p_poc.Outcome.{ok, fail, Error, message}
use sharding_p2p_poc.Text.{get_collations_topic}
use sharding_p2p_poc.Messages.{Codecs, Collation, RoundTrips}
use sharding_p2p_poc.Network.{Network}
use sharding_p2p_poc.State.{Node, external}
use sharding_p2p_poc.Manager.{broadcast_collation_message, is_collation_subscribed, type_collation}

module _ (net : Network) (codecs : Codecs) where
  open net use {publish}

  -- Without a subscription to the shard's topic the broadcast of a collation fails with an error,
  -- and nothing changes.
  pub broadcast_refused :
      (n : Node net) (c : Collation)
      → has_key (get_collations_topic c.shard_id) n.subs ≡ false
      → broadcast_collation_message net codecs c n
        ≡ (fail (message "broadcasting to a not subscribed shard"), n)
  unfolding broadcast_collation_message is_collation_subscribed
  broadcast_refused n c h = ground (arith, h)

  -- With a subscription to the shard's topic, codecs that round-trip, and messages that marshal:
  -- the broadcast of a collation is the publication of its bytes in that topic, and the bytes
  -- unmarshal to a message of the type of a collation, whose data unmarshal to the collation.
  pub broadcast_round_trip :
      (n : Node net) (c : Collation) (body msg_bytes : Bytes)
      → RoundTrips codecs.collation
      → RoundTrips codecs.message_with_type
      → has_key (get_collations_topic c.shard_id) n.subs ≡ true
      → codecs.collation.marshal c ≡ ok body
      → codecs.message_with_type.marshal (record { msg_type = type_collation; body = body })
        ≡ ok msg_bytes
      → (broadcast_collation_message net codecs c n
          ≡ external net (publish (get_collations_topic c.shard_id) msg_bytes) n)
        × (codecs.message_with_type.unmarshal msg_bytes
            ≡ ok (record { msg_type = type_collation; body = body }))
        × (codecs.collation.unmarshal body ≡ ok c)
  unfolding broadcast_collation_message is_collation_subscribed
  broadcast_round_trip n c body msg_bytes rc rm h pc pm =
      (ground (arith, h, pc, pm), rm _ msg_bytes pm, rc c body pc)

  -- An error of the first Marshal is lost: the collation is then published with no data.
  pub broadcast_lost_error :
      (n : Node net) (c : Collation) (e : Error) (msg_bytes : Bytes)
      → has_key (get_collations_topic c.shard_id) n.subs ≡ true
      → codecs.collation.marshal c ≡ fail e
      → codecs.message_with_type.marshal (record { msg_type = type_collation; body = [] })
        ≡ ok msg_bytes
      → broadcast_collation_message net codecs c n
        ≡ external net (publish (get_collations_topic c.shard_id) msg_bytes) n
  unfolding broadcast_collation_message is_collation_subscribed
  broadcast_lost_error n c e msg_bytes h pc pm = ground (arith, h, pc, pm)
