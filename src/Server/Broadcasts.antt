-- ===== src/Server/Broadcasts.antt =====
-- rpcserver.go, lines 248 to 300, and shardmanager.go, lines 358 to 390: what BroadcastCollation
-- publishes.
use mathlib.Core.List.{append-nil, append_assoc}
use sharding_p2p_poc.Prelude.{
  ℕ, zero, suc, ◌-◌, ◌<◌, arith, ℤ, pos, Bytes, bytes_eq, true, ◌≡◌, refl, sym, ap, ◌∙◌, List, [],
  ◌∷◌, ◌++◌, length, ltb, if◌then◌else◌, Bool-cases, inl, inr,
}
use sharding_p2p_poc.Prelude.Assoc.{has_key}
use sharding_p2p_poc.Outcome.{Outcome, ok}
use sharding_p2p_poc.Text.{get_collations_topic}
use sharding_p2p_poc.Messages.{Codecs, Codec, Collation, RoundTrips}
use sharding_p2p_poc.Network.{Network}
use sharding_p2p_poc.State.{Node, OnlyWorld}
use sharding_p2p_poc.Manager.{type_collation, broadcast_collation}
use sharding_p2p_poc.Manager.Messages.{broadcast_round_trip}
use sharding_p2p_poc.Server.Collations.{broadcast_loop, broadcast_collations}

-- Every message marshals.
abbrev pub Marshals : {A : Type 0} → Codec A → Type 0
Marshals {A} c = (a : A) → (bytes : Bytes) × (c.marshal a ≡ ok bytes)

-- A network whose publications succeed and can be seen, as topics and messages in their order, and
-- whose random bytes are as many as asked for
pub record Publishes (net : Network) : Type 0 where
  pub log : net.World → List (Bytes × Bytes)
  pub publishes :
      (topic bytes : Bytes) (w : net.World)
      → ((net.publish topic bytes w).0 ≡ ok tt)
        × (log (net.publish topic bytes w).1 ≡ log w ++ (topic, bytes) ∷ [])
  pub reads : (k : ℕ) (w : net.World) → log (net.rand_read k w).1 ≡ log w
  pub fills : (k : ℕ) (w : net.World) → length (net.rand_read k w).0 ≡ k

module _ (codecs : Codecs) where
  -- The bytes are read as the collation of a shard and a period, with some blobs of a size.
  pub record IsCollation (shard_id : ℤ) (period size : ℕ) (bytes : Bytes) : Type 0 where
    pub body : Bytes
    pub blobs : Bytes
    pub typed :
        codecs.message_with_type.unmarshal bytes
        ≡ ok (record { msg_type = type_collation; body = body })
    pub read :
        codecs.collation.unmarshal body
        ≡ ok (record { shard_id = shard_id; period = pos period; blobs = blobs })
    pub sized : length blobs ≡ size

  -- Collations of one shard in its topic, of periods that ascend from a first one
  abbrev pub AreCollations : ℤ → ℕ → ℕ → List (Bytes × Bytes) → Type 0
  AreCollations shard_id period size [] = Unit
  AreCollations shard_id period size ((topic, bytes) ∷ sent) =
      (topic ≡ get_collations_topic shard_id)
      × IsCollation shard_id period size bytes
      × AreCollations shard_id (suc period) size sent

  module _ (net : Network) (p : Publishes net) where
    -- What a run publishes: `number` collations, from a period on
    pub record Broadcasts (n : Node net) (shard_id : ℤ) (period number size : ℕ)
        (r : Outcome (Unit {0}) × Node net) : Type 0 where
      pub sent : List (Bytes × Bytes)
      pub returned : r.0 ≡ ok tt
      pub only_world : OnlyWorld net n r.1
      pub published : p.log r.1.world ≡ p.log n.world ++ sent
      pub count : length sent ≡ number
      pub collations : AreCollations shard_id period size sent

    module _ (collation_law : RoundTrips codecs.collation)
        (typed_law : RoundTrips codecs.message_with_type) (marshals : Marshals codecs.collation)
        (typed_marshals : Marshals codecs.message_with_type) where
      broadcast_loop-Broadcasts :
          (n : Node net) (shard_id : ℤ) (left i size : ℕ)
          → size < net.slice_limit
          → has_key (get_collations_topic shard_id) n.subs ≡ true
          → Broadcasts n shard_id i left size
              (broadcast_loop net codecs shard_id (pos size) left i n)
      unfolding broadcast_loop broadcast_collation
      broadcast_loop-Broadcasts n shard_id zero i size small h = record {
        sent = [];
        returned = refl;
        only_world = refl;
        published = sym (append-nil _);
        count = refl;
        collations = tt;
      }
      broadcast_loop-Broadcasts n shard_id (suc left) i size small h =
          let blobs = (net.rand_read size n.world).0 in
          let w1 = (net.rand_read size n.world).1 in
          let c : Collation = record { shard_id = shard_id; period = pos i; blobs = blobs } in
          let (body, e) = marshals c in
          let (bytes, f) = typed_marshals (record { msg_type = type_collation; body = body }) in
          let topic = get_collations_topic shard_id in
          let (run, typed, read) =
            broadcast_round_trip net codecs (record n { world = w1 }) c body bytes collation_law
              typed_law h e f in
          let (sent_ok, logged) = p.publishes topic bytes w1 in
          let w2 = (net.publish topic bytes w1).1 in
          let rest =
            broadcast_loop-Broadcasts (record n { world = w2 }) shard_id left (suc i) size small
              h in
          let short : ltb size net.slice_limit ≡ true = ground (arith, small) in
          rw (short, run, sent_ok)
            (record {
              sent = (topic, bytes) ∷ rest.sent;
              returned = rest.returned;
              only_world = rest.only_world;
              published =
                  rest.published
                  ∙ rw (logged, p.reads size n.world)
                      (append_assoc (p.log n.world) ((topic, bytes) ∷ []) rest.sent);
              count = ap suc rest.count;
              collations = (
                refl,
                record {
                  body = body;
                  blobs = blobs;
                  typed = typed;
                  read = read;
                  sized = p.fills size n.world;
                },
                rest.collations,
              );
            })

      -- With a subscription to the shard's topic, codecs whose messages marshal and round-trip,
      -- and a network whose publications succeed: BroadcastCollation of a number of collations of
      -- a size below the limit of slices, neither of them negative, returns without an error and changes nothing of the node
      -- but its world; it publishes that number of messages, all in the shard's topic, which are
      -- read as collations of the shard, of the periods 0, 1, 2 and so on, each with as many bytes
      -- as the size says, less 100 where that is above 100.
      pub broadcast_collations-Broadcasts :
          (n : Node net) (shard_id : ℤ) (number size : ℕ)
          → size < net.slice_limit
          → has_key (get_collations_topic shard_id) n.subs ≡ true
          → Broadcasts n shard_id 0 number
              (if ltb 100 size then size - 100 else size)
              (broadcast_collations net codecs shard_id (pos number) (pos size) n)
      unfolding broadcast_collations
      broadcast_collations-Broadcasts n shard_id number size short h =
          elim (Bool-cases (ltb 100 size)) [
            | inl large ↦ rw large (
                broadcast_loop-Broadcasts n shard_id number 0 (size - 100) (omega (arith, short)) h)
            | inr small ↦ rw small (broadcast_loop-Broadcasts n shard_id number 0 size short h)
          ]
