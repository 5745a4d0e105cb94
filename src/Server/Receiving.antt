-- ===== src/Server/Receiving.antt =====
-- rpcserver.go, lines 248 to 300, and shardmanager.go, lines 374 to 402: the collations that one node
-- broadcasts, at the validator of another.
use sharding_p2p_poc.Prelude.{
  ℕ, suc, ◌-◌, ◌<◌, ℤ, pos, Bytes, bytes_eq, Bool, true, ◌≡◌, arith, List, [], ◌∷◌, ltb, Bool-cases,
  inl, inr, if◌then◌else◌,
}
use sharding_p2p_poc.Prelude.Assoc.{has_key}
use sharding_p2p_poc.Outcome.{ok}
use sharding_p2p_poc.Text.{get_collations_topic}
use sharding_p2p_poc.Messages.{Codecs, Collation, RoundTrips}
use sharding_p2p_poc.Notifier.{EventNotifier}
use sharding_p2p_poc.Network.{Network, general_validator}
use sharding_p2p_poc.State.{Node}
use sharding_p2p_poc.Manager.{accepts, type_collation, run_validator}
use sharding_p2p_poc.Server.Collations.{broadcast_collations}
use sharding_p2p_poc.Server.Broadcasts.{
  Marshals, Publishes, IsCollation, AreCollations, Broadcasts, broadcast_collations-Broadcasts,
}

module _ (codecs : Codecs) (far : Network) (notifier : EventNotifier (Node far)) (n : Node far)
    (from : Bytes) where
  -- The host behind the notifier answers a collation of the sender by 1 if it is good, else by 0.
  pub record Judges (good : Collation → Bool) : Type 0 where
    pub answers :
        (body : Bytes) (c : Collation)
        → codecs.collation.unmarshal body ≡ ok c
        → (notifier.receive from type_collation body n).0 ≡ ok (if good c then 1 ∷ [] else 0 ∷ [])

  -- A message is that of a collation, and the validator's verdict is that on this collation.
  pub record IsJudged (good : Collation → Bool) (shard_id : ℤ) (period size : ℕ) (bytes : Bytes)
      : Type 0 where
    pub sent : IsCollation codecs shard_id period size bytes
    pub verdict :
        (run_validator far codecs notifier general_validator
          (record { from = from; payload = bytes })
          n).0
        ≡ ok (good (record { shard_id = shard_id; period = pos period; blobs = sent.blobs }))

  abbrev pub AreJudged : (Collation → Bool) → ℤ → ℕ → ℕ → List (Bytes × Bytes) → Type 0
  AreJudged good shard_id period size [] = Unit
  AreJudged good shard_id period size ((topic, bytes) ∷ sent) =
      IsJudged good shard_id period size bytes × AreJudged good shard_id (suc period) size sent

  IsCollation-IsJudged :
      (good : Collation → Bool)
      → Judges good
      → (shard_id : ℤ) (period size : ℕ) (bytes : Bytes)
      → IsCollation codecs shard_id period size bytes
      → IsJudged good shard_id period size bytes
  unfolding run_validator accepts
  IsCollation-IsJudged good judges shard_id period size bytes c =
      let collation : Collation = record {
        shard_id = shard_id;
        period = pos period;
        blobs = c.blobs;
      } in
      record {
        sent = c;
        verdict = elim (Bool-cases (good collation)) [
          | inl yes_good ↦ ground (arith, c.typed, judges.answers c.body collation c.read, yes_good)
          | inr not_good ↦ ground (arith, c.typed, judges.answers c.body collation c.read, not_good)
        ];
      }

  all_judged :
      (good : Collation → Bool)
      → Judges good
      → (shard_id : ℤ) (period size : ℕ) (sent : List (Bytes × Bytes))
      → AreCollations codecs shard_id period size sent
      → AreJudged good shard_id period size sent
  all_judged good judges shard_id period size [] c = tt
  all_judged good judges shard_id period size ((topic, bytes) ∷ sent) (same, c, rest) = (
    IsCollation-IsJudged good judges shard_id period size bytes c,
    all_judged good judges shard_id (suc period) size sent rest,
  )

  -- With a subscription to the shard's topic, codecs whose messages marshal and round-trip, and a
  -- network whose publications succeed: BroadcastCollation of a number of collations of a size,
  -- neither of them negative and the size below the length from which on make panics, returns
  -- without an error and changes nothing of the node but its world; it publishes that number of
  -- messages, all in the shard's topic, which are read as collations of the shard, of the periods
  -- 0, 1, 2 and so on, each with as many bytes as the size says, less 100 where that is above 100.
  -- At another node, whose host answers a collation of this sender by 1 if it is good and else by
  -- 0, the general validator returns for each of the messages, in their order, whether the
  -- collation that it carries, with its shard, its period and its blobs, is good.
  pub broadcast-judged :
      (net : Network) (p : Publishes net) (m : Node net) (good : Collation → Bool) (shard_id : ℤ)
      (number size : ℕ)
      → RoundTrips codecs.collation
      → RoundTrips codecs.message_with_type
      → Marshals codecs.collation
      → Marshals codecs.message_with_type
      → size < net.slice_limit
      → has_key (get_collations_topic shard_id) m.subs ≡ true
      → Judges good
      → (b : Broadcasts codecs net p m shard_id 0 number
          (if ltb 100 size then size - 100 else size)
          (broadcast_collations net codecs shard_id (pos number) (pos size) m))
        × AreJudged good shard_id 0 (if ltb 100 size then size - 100 else size) b.sent
  broadcast-judged net p m good shard_id number size law typed_law marshals typed_marshals short h
        judges =
      let b =
        broadcast_collations-Broadcasts codecs net p law typed_law marshals typed_marshals m
          shard_id number size short h in
      (b, all_judged good judges shard_id 0 _ b.sent b.collations)
