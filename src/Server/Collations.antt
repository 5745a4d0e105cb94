-- ===== src/Server/Collations.antt =====
-- rpcserver.go, lines 248 to 412: BroadcastCollation, SendCollation and Send.
use sharding_p2p_poc.Prelude.{
  ℕ, zero, suc, ◌-◌, ℤ, pos, negsuc, Bytes, [], ◌∷◌, Option, none, some, ltb, if◌then◌else◌,
  pos_part,
}
use sharding_p2p_poc.Outcome.{ok, panic, message, wrapped}
use sharding_p2p_poc.Exec.{Exec, pure, lift, wrapping, ◌>>=◌, ◌>>◌}
use sharding_p2p_poc.Messages.{Codecs, Collation}
use sharding_p2p_poc.Network.{Network}
use sharding_p2p_poc.State.{Node, external}
use sharding_p2p_poc.Manager.{broadcast_collation, broadcast_collation_message}
use sharding_p2p_poc.Requests.{Streams, general_request}

-- The size of the data, for a message of the size asked for.
abbrev pub data_size : ℤ → ℤ
data_size (pos n) = if ltb 100 n then pos (n - 100) else pos n
data_size (negsuc n) = negsuc n

module _ (net : Network) (codecs : Codecs) where
  open net use {rand_read, slice_limit, publish}

  -- make([]byte, size), which panics on a negative size and on one that is too large, and rand.Read
  abbrev random_bytes : ℤ → Exec (Node net) Bytes
  random_bytes (negsuc k) n = (panic, n)
  random_bytes (pos k) n =
      if ltb k slice_limit
      then (ok (rand_read k n.world).0, record n { world = (rand_read k n.world).1 })
      else (panic, n)

  -- The loop, with the rounds that are left; `i` is the period of the next collation.
  unfoldable pub broadcast_loop : ℤ → ℤ → ℕ → ℕ → Exec (Node net) (Unit {0})
  broadcast_loop shard_id size zero i = pure tt
  broadcast_loop shard_id size (suc left) i = do
    rand_bytes ← random_bytes size
    wrapping (wrapped "Failed to broadcast collation, err: ")
        (broadcast_collation net codecs shard_id (pos i) rand_bytes)
    broadcast_loop shard_id size left (suc i)

  -- BroadcastCollation of a shard, a number and a size
  unfoldable pub broadcast_collations : ℤ → ℤ → ℤ → Exec (Node net) (Unit {0})
  broadcast_collations shard_id number size =
      broadcast_loop shard_id (data_size size) (pos_part number) 0

  -- The fields of a nil collation are read with a panic.
  unfoldable pub send_collation : Option Collation → Exec (Node net) (Unit {0})
  send_collation none n = (panic, n)
  send_collation (some collation) n =
      wrapping (wrapped "Failed to broadcast collation message, err: ")
        (broadcast_collation_message net codecs collation) n

  module _ (streams : Streams net.World) where
    -- Without a peer the message is published, otherwise the peer is asked.
    unfoldable pub send : Bytes → Bytes → ℤ → Bytes → Exec (Node net) Bytes
    send [] topic msg_type body = do
      msg_bytes ←
          wrapping (wrapped "failed to marshall typedMessage")
            (lift (codecs.message_with_type.marshal (record { msg_type = msg_type; body = body })))
      wrapping (wrapped "failed to publish") (external net (publish topic msg_bytes))
      pure []
    send (c ∷ text) topic msg_type body = do
      peer_id ← wrapping (λ e. message "invalid peerID") (lift (codecs.idb58_decode (c ∷ text)))
      wrapping (λ e. message "failed to make request to peer")
          (general_request net streams codecs peer_id msg_type body)
