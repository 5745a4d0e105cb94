-- ===== src/Manager/Unlisten.antt =====
-- shardmanager.go, lines 201 to 224 and 287 to 306: `UnlistenShard` and `UnsubscribeTopic`, on each
-- outcome.
use sharding_p2p_poc.Prelude.{
  ◌==◌, ℕ, ◌<◌, pos, Bytes, bytes_eq, bytes_beq_iff, true, false, ◌≡◌, ap, ◌∙◌, arith, inl, inr,
  Option-cases, if◌then◌else◌,
}
use sharding_p2p_poc.Prelude.Assoc.{lookup, has_key, lookup-delete}
use sharding_p2p_poc.Outcome.{Outcome, ok, fail, panic, Error, returns, fails, panics, ending}
use sharding_p2p_poc.Text.{format_int, get_collations_topic}
use sharding_p2p_poc.Shards.{num_shards}
use sharding_p2p_poc.PrefTable.View.{leave, listens, IsTable}
use sharding_p2p_poc.Network.{Network}
use sharding_p2p_poc.State.{Node}
use sharding_p2p_poc.Discovery.{Discovery}
use sharding_p2p_poc.Discovery.Laws.{ShardDiscovery, Toggled}
use sharding_p2p_poc.Manager.{unsubscribe_topic, unsubscribe_collation, unlisten_shard}
use sharding_p2p_poc.Manager.Listen.{is_shard_listened_lem}

module _ (net : Network) where
  open net use {host_id}

  -- Unsubscribing returns; it takes the topic out, and no other, and leaves the preferences.
  pub record Unsubscribes (n : Node net) (topic : Bytes) (r : Outcome (Unit {0}) × Node net)
      : Type 0 where
    pub returned : r.0 ≡ ok tt
    pub table : r.1.shard_pref_table ≡ n.shard_pref_table
    pub subs : (t : Bytes) → has_key t r.1.subs ≡ (if topic == t then false else has_key t n.subs)

  pub unsubscribe_topic-Unsubscribes :
      (n : Node net) (topic : Bytes) → Unsubscribes n topic (unsubscribe_topic net topic n)
  unfolding unsubscribe_topic
  unsubscribe_topic-Unsubscribes n topic = elim (Option-cases (lookup topic n.subs)) [
    | inl e ↦ record {
      returned = ground (arith, e);
      table = ground (arith, e);
      subs = λ t. ground (arith, e, bytes_beq_iff topic t);
    }
    | inr (sub, e) ↦ record {
      returned = ground (arith, e);
      table = ground (arith, e);
      subs = λ t. ground (arith, e, lookup-delete topic t n.subs);
    }
  ]

  -- What a call of `UnlistenShard` for a shard that the host listens to does: the preference is
  -- taken out whatever the outcome; the topic is taken out on success, and not on an error.
  pub record Leaves (n : Node net) (s : ℕ) (r : Outcome (Unit {0}) × Node net) : Type 0 where
    pub is_table : IsTable r.1.shard_pref_table
    pub relation :
        (p : Bytes) (t : ℕ)
        → listens r.1.shard_pref_table p t ≡ leave host_id s (listens n.shard_pref_table) p t
    pub failed : (e : Error) → r.0 ≡ fail e → r.1.subs ≡ n.subs
    pub removed :
        r.0 ≡ ok tt
        → (t : Bytes)
        → has_key t r.1.subs
          ≡ (if get_collations_topic (pos s) == t then false else has_key t n.subs)

  stopped-Leaves :
      (n : Node net) (s : ℕ) (m : Node net) (r : Outcome (Unit {0}))
      → Toggled net n s m
      → listens n.shard_pref_table host_id s ≡ true
      → (r ≡ ok tt → ⊥)
      → Leaves n s (r, m)
  stopped-Leaves n s m r tog on bad = record {
    is_table = tog.is_table;
    relation = λ p t. tog.relation p t ∙ ground (arith, on);
    failed = λ e p. tog.subs;
    removed = λ p t. absurd (bad p);
  }

  unsubscribed-Leaves :
      (n : Node net) (s : ℕ) (m : Node net) (r : Outcome (Unit {0}) × Node net)
      → Toggled net n s m
      → listens n.shard_pref_table host_id s ≡ true
      → Unsubscribes m (get_collations_topic (pos s)) r
      → Leaves n s r
  unsubscribed-Leaves n s m r tog on un = record {
    is_table = rw un.table tog.is_table;
    relation = λ p t. rw un.table (tog.relation p t ∙ ground (arith, on));
    failed = λ err p. absurd (cc (un.returned));
    removed = λ p t.
        un.subs t
        ∙ ap (λ subs. if get_collations_topic (pos s) == t then false else has_key t subs) tog.subs;
  }

  module _ (d : Discovery (Node net)) (laws : ShardDiscovery net d) where
    -- Without the preference nothing is done.
    pub unlisten_shard-not_listened :
        (n : Node net) (s : ℕ)
        → IsTable n.shard_pref_table
        → s < num_shards
        → listens n.shard_pref_table host_id s ≡ false
        → unlisten_shard net d (pos s) n ≡ (ok tt, n)
    unfolding unlisten_shard
    unlisten_shard-not_listened n s w h off = rw (is_shard_listened_lem net n s w h, off)

    -- On a well-formed table, for a shard below 100 that the host listens to, and a discovery
    -- service that keeps its contract: UnlistenShard, whatever its outcome, leaves a well-formed
    -- table in which the host does not listen to the shard and every other pair is as before; on
    -- success the shard's topic is no longer subscribed to, and no other key changes; on an error
    -- the subscriptions are as before.
    pub unlisten_shard-Leaves :
        (n : Node net) (s : ℕ)
        → IsTable n.shard_pref_table
        → s < num_shards
        → listens n.shard_pref_table host_id s ≡ true
        → Leaves n s (unlisten_shard net d (pos s) n)
    unfolding unlisten_shard unsubscribe_collation
    unlisten_shard-Leaves n s w h on =
        let a = d.advertise (format_int (pos s)) n in
        let tog = laws.toggles n s w h in
        elim (ending a.0) [
          | fails e p ↦
              rw (is_shard_listened_lem net n s w h, on, p)
                (stopped-Leaves n s a.1 (fail e) tog on (λ q. cc))
          | panics p ↦
              rw (is_shard_listened_lem net n s w h, on, p)
                (stopped-Leaves n s a.1 panic tog on (λ q. cc))
          | returns u p ↦
              rw (is_shard_listened_lem net n s w h, on, p)
                (unsubscribed-Leaves n s a.1 _ tog on
                  (unsubscribe_topic-Unsubscribes a.1 (get_collations_topic (pos s))))
        ]
