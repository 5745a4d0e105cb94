-- ===== src/Manager.antt =====
-- shardmanager.go: subscriptions, the shards that the host listens to, and collations. Logging and
-- tracing are left out; each method runs on its own.
pub mod Connect
pub mod Listen
pub mod Unlisten
pub mod Sync
pub mod Messages
pub mod Threads
pub mod Readers
pub mod Calm
pub mod Subs
use sharding_p2p_poc.Prelude.{
  ℕ, ℤ, pos, Bytes, bytes_eq, int_eq, Bool, true, false, not, ◌||◌, List, [], ◌∷◌, Option, none,
  some, contains, nat_beq, length, get_or, if◌then◌else◌,
}
use sharding_p2p_poc.Prelude.Assoc.{lookup, insert, delete, has_key}
use sharding_p2p_poc.Outcome.{Outcome, ok, fail, panic, Error, message}
use sharding_p2p_poc.Exec.{Exec, pure, raise, lift, gets, modify, attempt, ◌>>=◌, ◌>>◌}
use sharding_p2p_poc.Text.{format_int, get_collations_topic, listening_shard_topic}
use sharding_p2p_poc.Shards.{new_listening_shards, from_bytes}
use sharding_p2p_poc.PrefTable.{get_peer_listening_shard_slice, set_peer_listening_shard}
use sharding_p2p_poc.Messages.{Codecs, Collation, MessageWithType, Codec}
use sharding_p2p_poc.Notifier.{EventNotifier}
use sharding_p2p_poc.Network.{
  Network, TopicHandler, shard_pref_handler, general_handler, TopicValidator, shard_pref_validator,
  general_validator,
}
use sharding_p2p_poc.State.{Node, Message, external, effect}
use sharding_p2p_poc.Discovery.{Discovery}
use Connect.{connect_shard_nodes}

abbrev pub type_collation : ℤ
type_collation = pos 1

-- NewShardManager ends the process on an error.
abbrev fatal_on_error : Outcome (Unit {0}) → Outcome (Unit {0})
fatal_on_error (ok u) = ok u
fatal_on_error (fail e) = panic
fatal_on_error panic = panic

-- The last tests of the validator: one byte that is not 0.
unfoldable pub accepts : Bytes → Bool
accepts validity_bytes =
    not (not (nat_beq (length validity_bytes) 1) || nat_beq (get_or validity_bytes 0 0) 0)

-- The error of the first Marshal is overwritten; the data are then empty.
abbrev data_bytes : Outcome Bytes → Outcome Bytes
data_bytes (ok bytes) = ok bytes
data_bytes (fail e) = ok []
data_bytes panic = panic

module _ (net : Network) where
  open net use {World, Subscription, host_id, subscribe, cancel, register_topic_validator, publish}

  unfoldable pub get_listening_shards : Exec (Node net) (List ℤ)
  get_listening_shards = do
    table ← gets (λ n. n.shard_pref_table)
    lift (get_peer_listening_shard_slice table host_id)

  -- inShards
  unfoldable pub in_shards : ℤ → List ℤ → Bool
  unfolding contains
  in_shards shard_id shards = contains shards shard_id

  unfoldable pub is_shard_listened : ℤ → Exec (Node net) Bool
  unfolding in_shards
  is_shard_listened shard_id = do shards ← get_listening_shards; pure (in_shards shard_id shards)

  -- The error of RegisterTopicValidator is dropped.
  abbrev pub register : Bytes → Option TopicValidator → Exec (Node net) (Unit {0})
  register topic none = pure tt
  register topic (some v) = do
    _ ← attempt (external net (register_topic_validator topic v))
    pure tt

  unfoldable pub subscribe_topic :
      Bytes → TopicHandler → Option TopicValidator → Exec (Node net) (Unit {0})
  subscribe_topic topic handler validator = do
    sub ← external net (subscribe topic)
    modify (λ n. record n { subs = insert topic sub n.subs })
    register topic validator
    modify (λ n. record n { readers = (sub, handler) ∷ n.readers })

  unfoldable pub unsubscribe_topic : Bytes → Exec (Node net) (Unit {0})
  unsubscribe_topic topic n = elim (lookup topic n.subs) [
    | none ↦ (ok tt, n)
    | some sub ↦ (ok tt, record n { subs = delete topic n.subs; world = cancel sub n.world })
  ]

  unfoldable pub subscribe_listening_shards : Exec (Node net) (Unit {0})
  subscribe_listening_shards =
      subscribe_topic listening_shard_topic shard_pref_handler (some shard_pref_validator)

  -- The part of NewShardManager that acts.
  unfoldable pub new_shard_manager : Exec (Node net) (Unit {0})
  unfolding subscribe_listening_shards
  new_shard_manager n =
      (fatal_on_error (subscribe_listening_shards n).0, (subscribe_listening_shards n).1)

  unfoldable pub unsubscribe_listening_shards : Exec (Node net) (Unit {0})
  unsubscribe_listening_shards = unsubscribe_topic listening_shard_topic

  unfoldable pub subscribe_general : Bytes → Exec (Node net) (Unit {0})
  subscribe_general topic = subscribe_topic topic general_handler (some general_validator)

  unfoldable pub subscribe_collation : ℤ → Exec (Node net) (Unit {0})
  unfolding subscribe_general
  subscribe_collation shard_id = subscribe_general (get_collations_topic shard_id)

  unfoldable pub unsubscribe_collation : ℤ → Exec (Node net) (Unit {0})
  unsubscribe_collation shard_id = unsubscribe_topic (get_collations_topic shard_id)

  unfoldable pub is_collation_subscribed : ℤ → Exec (Node net) Bool
  is_collation_subscribed shard_id = gets (λ n. has_key (get_collations_topic shard_id) n.subs)

  module _ (discovery : Discovery (Node net)) where
    open discovery use {advertise}

    -- An error of `connectShardNodes` is logged only.
    unfoldable pub listen_shard : ℤ → ℤ → Exec (Node net) (Unit {0})
    listen_shard num_shard_peer_to_connect shard_id = do
      listened ← is_shard_listened shard_id
      if listened then pure tt else do
        advertise (format_int shard_id)
        _ ← attempt (connect_shard_nodes net discovery num_shard_peer_to_connect shard_id)
        subscribe_collation shard_id

    unfoldable pub unlisten_shard : ℤ → Exec (Node net) (Unit {0})
    unlisten_shard shard_id = do
      listened ← is_shard_listened shard_id
      if not listened
          then pure tt
          else do advertise (format_int shard_id); unsubscribe_collation shard_id

  -- A message that passed the validator of its topic goes to the handler.
  unfoldable pub run_handler : TopicHandler → Message → Exec (Node net) (Unit {0})
  run_handler shard_pref_handler msg = modify λ n. record n {
    shard_pref_table =
        set_peer_listening_shard n.shard_pref_table msg.from
          (from_bytes new_listening_shards msg.payload);
  }
  run_handler general_handler msg = pure tt

  -- The goroutine of a subscription, on what `Next` returns; it ends at the first error.
  unfoldable pub read_messages : TopicHandler → List (Outcome Message) → Exec (Node net) (Unit {0})
  read_messages handler [] = pure tt
  read_messages handler (ok msg ∷ rest) = do run_handler handler msg; read_messages handler rest
  read_messages handler (fail e ∷ rest) = pure tt
  read_messages handler (panic ∷ rest) = λ n. (panic, n)

  module _ (codecs : Codecs) (notifier : EventNotifier (Node net)) where
    abbrev verdict : Outcome Bytes → Node net → Outcome Bool × Node net
    verdict (ok validity_bytes) n = (ok (accepts validity_bytes), n)
    verdict (fail e) n = (ok false, n)
    verdict panic n = (panic, n)

    abbrev judge : Message → Outcome MessageWithType → Exec (Node net) Bool
    judge msg (ok typed) n =
        let r = notifier.receive msg.from typed.msg_type typed.body n in verdict r.0 r.1
    judge msg (fail e) n = (ok false, n)
    judge msg panic n = (panic, n)

    unfoldable pub run_validator : TopicValidator → Message → Exec (Node net) Bool
    unfolding accepts
    run_validator shard_pref_validator msg = pure true
    run_validator general_validator msg = judge msg (codecs.message_with_type.unmarshal msg.payload)

  module _ (codecs : Codecs) where
    unfoldable pub broadcast_collation_message : Collation → Exec (Node net) (Unit {0})
    unfolding is_collation_subscribed
    broadcast_collation_message collation = do
      subscribed ← is_collation_subscribed collation.shard_id
      if not subscribed then raise (message "broadcasting to a not subscribed shard") else do
        body ← lift (data_bytes (codecs.collation.marshal collation))
        msg_bytes ←
            lift
              (codecs.message_with_type.marshal (record { msg_type = type_collation; body = body }))
        external net (publish (get_collations_topic collation.shard_id) msg_bytes)

    unfoldable pub broadcast_collation : ℤ → ℤ → Bytes → Exec (Node net) (Unit {0})
    broadcast_collation shard_id period blobs =
        broadcast_collation_message (record { shard_id = shard_id; period = period; blobs = blobs })
