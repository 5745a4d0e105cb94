-- ===== src/Manager/Listen.antt =====
-- shardmanager.go, lines 169 to 199 and 249 to 285: `ListenShard` and `SubscribeTopic`, on each outcome.
use sharding_p2p_poc.Prelude.{
  ◌==◌, ℕ, ◌<◌, ℤ, pos, Bytes, bytes_eq, int_eq, true, false, ◌≡◌, ◌≢◌, ap, ◌∙◌, arith, Option,
  some, if◌then◌else◌,
}
use sharding_p2p_poc.Prelude.Assoc.{has_key, lookup-insert}
use sharding_p2p_poc.Outcome.{Outcome, ok, fail, panic, Error, returns, fails, panics, ending}
use sharding_p2p_poc.Exec.{attempt, continue}
use sharding_p2p_poc.Text.{format_int, get_collations_topic}
use sharding_p2p_poc.Shards.{num_shards}
use sharding_p2p_poc.Shards.View.Listing.{contains-shard_list}
use sharding_p2p_poc.PrefTable.View.{join, listens, IsTable}
use sharding_p2p_poc.PrefTable.Ops.{get_peer_listening_shard_slice_lem}
use sharding_p2p_poc.Network.{
  Network, TopicHandler, TopicValidator, general_handler, general_validator,
}
use sharding_p2p_poc.State.{Node, OnlyWorld}
use sharding_p2p_poc.Discovery.{Discovery}
use sharding_p2p_poc.Discovery.Laws.{ShardDiscovery, Toggled}
use sharding_p2p_poc.Manager.{
  get_listening_shards, is_shard_listened, subscribe_topic, subscribe_collation, listen_shard,
}
use sharding_p2p_poc.Manager.Connect.{connect_shard_nodes}
use sharding_p2p_poc.Manager.Connect.Frame.{connect_shard_nodes-Quiet, Quiet-attempt}

module _ (net : Network) where
  open net use {host_id, subscribe}

  -- For a shard in range the test reads the host's own preference, and changes nothing.
  pub is_shard_listened_lem :
      (n : Node net) (s : ℕ)
      → IsTable n.shard_pref_table
      → s < num_shards
      → is_shard_listened net (pos s) n ≡ (ok (listens n.shard_pref_table host_id s), n)
  unfolding is_shard_listened get_listening_shards
  is_shard_listened_lem n s w h =
      rw (get_peer_listening_shard_slice_lem n.shard_pref_table host_id w)
        (ground (arith, contains-shard_list (listens n.shard_pref_table host_id) s))

  -- What a subscription does to the node: the preferences stay; a failure leaves the subscriptions,
  -- and success enters the topic and no other.
  pub record Subscribes (n : Node net) (topic : Bytes) (r : Outcome (Unit {0}) × Node net)
      : Type 0 where
    pub table : r.1.shard_pref_table ≡ n.shard_pref_table
    pub failed : (e : Error) → r.0 ≡ fail e → r.1.subs ≡ n.subs
    pub entered :
        r.0 ≡ ok tt
        → (t : Bytes) → has_key t r.1.subs ≡ (if topic == t then true else has_key t n.subs)
    pub others : (t : Bytes) → (topic == t) ≡ false → has_key t r.1.subs ≡ has_key t n.subs

  pub subscribe_topic-Subscribes :
      (n : Node net) (topic : Bytes) (handler : TopicHandler) (v : TopicValidator)
      → Subscribes n topic (subscribe_topic net topic handler (some v) n)
  unfolding subscribe_topic
  subscribe_topic-Subscribes n topic handler v = elim (ending (subscribe topic n.world).0) [
    | returns sub e ↦ record {
      table = ground (arith, e);
      failed = λ err p. ground (arith, e);
      entered = λ p t. ground (arith, e, lookup-insert topic t sub n.subs);
      others = λ t p. ground (arith, e, p, lookup-insert topic t sub n.subs);
    }
    | fails err e ↦ record {
      table = ground (arith, e);
      failed = λ err p. ground (arith, e);
      entered = λ p t. ground (arith, e);
      others = λ t p. ground (arith, e);
    }
    | panics e ↦ record {
      table = ground (arith, e);
      failed = λ err p. ground (arith, e);
      entered = λ p t. ground (arith, e);
      others = λ t p. ground (arith, e);
    }
  ]

  pub subscribe_collation-Subscribes :
      (n : Node net) (s : ℤ) → Subscribes n (get_collations_topic s) (subscribe_collation net s n)
  unfolding subscribe_collation
  subscribe_collation-Subscribes n s =
      subscribe_topic-Subscribes n (get_collations_topic s) general_handler general_validator

  -- What a call of `ListenShard` for a shard that the host does not listen to does: the preference
  -- is entered whatever the outcome; the topic is entered on success, and not on an error.
  pub record Joins (n : Node net) (s : ℕ) (r : Outcome (Unit {0}) × Node net) : Type 0 where
    pub is_table : IsTable r.1.shard_pref_table
    pub relation :
        (p : Bytes) (t : ℕ)
        → listens r.1.shard_pref_table p t ≡ join host_id s (listens n.shard_pref_table) p t
    pub failed : (e : Error) → r.0 ≡ fail e → r.1.subs ≡ n.subs
    pub entered :
        r.0 ≡ ok tt
        → (t : Bytes)
        → has_key t r.1.subs
          ≡ (if get_collations_topic (pos s) == t then true else has_key t n.subs)

  moved-Toggled :
      (n : Node net) (s : ℕ) (m : Node net) (world : net.World)
      → Toggled net n s m
      → Toggled net n s (record m { world = world })
  moved-Toggled n s m world tog = record {
    is_table = tog.is_table;
    relation = tog.relation;
    subs = tog.subs;
    readers = tog.readers;
  }

  -- The call ended after the announcement.
  stopped-Joins :
      (n : Node net) (s : ℕ) (m : Node net) (r : Outcome (Unit {0}))
      → Toggled net n s m
      → listens n.shard_pref_table host_id s ≡ false
      → r ≢ ok tt
      → Joins n s (r, m)
  stopped-Joins n s m r tog off bad = record {
    is_table = tog.is_table;
    relation = λ p t. tog.relation p t ∙ ground (arith, off);
    failed = λ e p. tog.subs;
    entered = λ p t. absurd (bad p);
  }

  -- It went on to the subscription, in a state that differs in the world only.
  subscribed-Joins :
      (n : Node net) (s : ℕ) (m m' : Node net) (r : Outcome (Unit {0}) × Node net)
      → Toggled net n s m
      → OnlyWorld net m m'
      → listens n.shard_pref_table host_id s ≡ false
      → Subscribes m' (get_collations_topic (pos s)) r
      → Joins n s r
  subscribed-Joins n s m m' r tog only off sub =
      let e : r.1.shard_pref_table ≡ m.shard_pref_table =
        sub.table ∙ ap (λ (k : Node net). k.shard_pref_table) only in
      let u : m'.subs ≡ n.subs = ap (λ (k : Node net). k.subs) only ∙ tog.subs in
      record {
        is_table = rw e tog.is_table;
        relation = λ p t. rw e (tog.relation p t ∙ ground (arith, off));
        failed = λ err p. sub.failed err p ∙ u;
        entered = λ p t.
            sub.entered p t
            ∙ ap (λ subs. if get_collations_topic (pos s) == t then true else has_key t subs) u;
      }

  -- The rest of a call, from what the dials have left.
  rest-Joins :
      (n : Node net) (s : ℕ) (m m' : Node net) (c : Outcome (Option Error))
      → Toggled net n s m
      → OnlyWorld net m m'
      → listens n.shard_pref_table host_id s ≡ false
      → Joins n s (continue c (λ _. subscribe_collation net (pos s)) m')
  rest-Joins n s m m' (ok c) tog only off =
      subscribed-Joins n s m m' _ tog only off (subscribe_collation-Subscribes m' (pos s))
  rest-Joins n s m m' (fail e) tog only off =
      rw only (stopped-Joins n s _ (fail e) (moved-Toggled n s m m'.world tog) off (λ q. cc))
  rest-Joins n s m m' panic tog only off =
      rw only (stopped-Joins n s _ panic (moved-Toggled n s m m'.world tog) off (λ q. cc))

  module _ (d : Discovery (Node net)) (laws : ShardDiscovery net d) where
    -- With the preference already there, nothing is done.
    pub listen_shard-listened :
        (n : Node net) (num : ℤ) (s : ℕ)
        → IsTable n.shard_pref_table
        → s < num_shards
        → listens n.shard_pref_table host_id s ≡ true
        → listen_shard net d num (pos s) n ≡ (ok tt, n)
    unfolding listen_shard
    listen_shard-listened n num s w h on = rw (is_shard_listened_lem n s w h, on)

    -- On a well-formed table, for a shard below 100 that the host does not listen to, and a
    -- discovery service that keeps its contract: ListenShard, whatever its outcome, leaves a well-
    -- formed table in which the host listens to the shard and every other pair is as before; on
    -- success the shard's topic is added to the subscriptions, and no other key changes; on an
    -- error the subscriptions are as before.
    pub listen_shard-Joins :
        (n : Node net) (num : ℤ) (s : ℕ)
        → IsTable n.shard_pref_table
        → s < num_shards
        → listens n.shard_pref_table host_id s ≡ false
        → Joins n s (listen_shard net d num (pos s) n)
    unfolding listen_shard
    listen_shard-Joins n num s w h off =
        let a = d.advertise (format_int (pos s)) n in
        let tog = laws.toggles n s w h in
        let quiet =
          (Quiet-attempt net (connect_shard_nodes net d num (pos s))
              (connect_shard_nodes-Quiet net d num (pos s) laws)).at
            a.1 in
        elim (ending a.0) [
          | fails e p ↦
              rw (is_shard_listened_lem n s w h, off, p)
                (stopped-Joins n s a.1 (fail e) tog off (λ q. cc))
          | panics p ↦
              rw (is_shard_listened_lem n s w h, off, p)
                (stopped-Joins n s a.1 panic tog off (λ q. cc))
          | returns u p ↦
              rw (is_shard_listened_lem n s w h, off, p)
                (rest-Joins n s a.1 _ (attempt (connect_shard_nodes net d num (pos s)) a.1).0 tog
                  quiet off)
        ]
