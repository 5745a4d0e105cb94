-- ===== src/Manager/Sync.antt =====
-- Whether the preferences that the host announces and the collation topics that it subscribes to
-- agree: after sequences of steps, and after an error of a library.
use sharding_p2p_poc.Prelude.{
  ◌==◌, ==_refl, ℕ, ◌<◌, ℤ, pos, bytes_eq, bytes_beq_iff, true, false, ◌≡◌, refl, subst, sym, ap,
  ◌∙◌, arith, nat_beq, nat_beq_iff, inl, inr, Bool-cases,
}
use sharding_p2p_poc.Prelude.Assoc.{lookup, has_key}
use sharding_p2p_poc.Outcome.{Outcome, ok, fail, Error}
use sharding_p2p_poc.Text.{get_collations_topic, listening_shard_topic}
use sharding_p2p_poc.Text.Topics.{get_collations_topic_injective, listening_shard_topic-ne}
use sharding_p2p_poc.Shards.{num_shards, new_listening_shards, from_bytes}
use sharding_p2p_poc.Shards.View.{IsWellFormed}
use sharding_p2p_poc.PrefTable.View.{listens, IsTable}
use sharding_p2p_poc.PrefTable.Ops.{
  new_shard_pref_table-IsTable, listens-new, set_peer_listening_shard-IsTable,
  listens-set_peer_listening_shard,
}
use sharding_p2p_poc.Network.{Network, shard_pref_handler, shard_pref_validator}
use sharding_p2p_poc.State.{Node, Message, OnlyWorld, initial_node}
use sharding_p2p_poc.Discovery.{Discovery}
use sharding_p2p_poc.Discovery.Laws.{ShardDiscovery}
use sharding_p2p_poc.Manager.{
  listen_shard, unlisten_shard, run_handler, new_shard_manager, fatal_on_error,
}
use sharding_p2p_poc.Manager.Listen.{
  Joins, subscribe_topic-Subscribes, listen_shard-listened, listen_shard-Joins,
}
use sharding_p2p_poc.Manager.Unlisten.{Leaves, unlisten_shard-not_listened, unlisten_shard-Leaves}

-- Topics are compared as their shards are.
pub same_topic :
    (s t : ℕ)
    → s < num_shards
    → t < num_shards
    → (get_collations_topic (pos s) == get_collations_topic (pos t)) ≡ nat_beq s t
same_topic s t hs ht = elim (Bool-cases (nat_beq s t)) [
  | inl e ↦ ground (arith, e, ==_refl (get_collations_topic (pos s)), (nat_beq_iff s t).0 e)
  | inr e ↦ ground (
    arith,
    e,
    bytes_beq_iff (get_collations_topic (pos s)) (get_collations_topic (pos t)),
    get_collations_topic_injective (pos s) (pos t) (omega arith) (omega arith),
  )
]

listening_differs : (s : ℕ) → (listening_shard_topic == get_collations_topic (pos s)) ≡ false
listening_differs s = elim (Bool-cases (listening_shard_topic == get_collations_topic (pos s))) [
  | inl e ↦ absurd (
      listening_shard_topic-ne (pos s)
        (sym ((bytes_beq_iff listening_shard_topic (get_collations_topic (pos s))).0 e)))
  | inr e ↦ e
]

not_fatal : (r : Outcome (Unit {0})) → fatal_on_error r ≡ ok tt → r ≡ ok tt
not_fatal r e = ground arith

module _ (net : Network) where
  open net use {host_id, World, subscribe}

  -- The table is well formed, and the host is subscribed to the topic of a shard exactly when it
  -- lists the shard among its preferences.
  pub record IsInSync (n : Node net) : Type 0 where
    pub is_table : IsTable n.shard_pref_table
    pub agree :
        (s : ℕ)
        → s < num_shards
        → has_key (get_collations_topic (pos s)) n.subs ≡ listens n.shard_pref_table host_id s

  joined-IsInSync :
      (n : Node net) (s : ℕ) (n' : Node net)
      → s < num_shards
      → Joins net n s (ok tt, n')
      → IsInSync n
      → IsInSync n'
  joined-IsInSync n s n' h j w = record {
    is_table = j.is_table;
    agree = λ t ht. ground (
      arith,
      j.entered refl (get_collations_topic (pos t)),
      j.relation host_id t,
      w.agree t ht,
      same_topic s t h ht,
      ==_refl host_id,
    );
  }

  left-IsInSync :
      (n : Node net) (s : ℕ) (n' : Node net)
      → s < num_shards
      → Leaves net n s (ok tt, n')
      → IsInSync n
      → IsInSync n'
  left-IsInSync n s n' h l w = record {
    is_table = l.is_table;
    agree = λ t ht. ground (
      arith,
      l.removed refl (get_collations_topic (pos t)),
      l.relation host_id t,
      w.agree t ht,
      same_topic s t h ht,
      ==_refl host_id,
    );
  }

  -- What happens to a node: calls that succeed, announcements of other peers, and everything that
  -- changes the world only.
  pub data Step (d : Discovery (Node net)) (n n' : Node net) : Type 0 where
    listened :
        (num : ℤ) (s : ℕ)
        → s < num_shards
        → listen_shard net d num (pos s) n ≡ (ok tt, n')
        → Step d n n'
    unlistened :
        (s : ℕ) → s < num_shards → unlisten_shard net d (pos s) n ≡ (ok tt, n') → Step d n n'
    heard :
        (msg : Message)
        → (host_id == msg.from) ≡ false
        → IsWellFormed (from_bytes new_listening_shards msg.payload)
        → run_handler net shard_pref_handler msg n ≡ (ok tt, n')
        → Step d n n'
    elsewhere : OnlyWorld net n n' → Step d n n'

  pub data Reach (d : Discovery (Node net)) (n : Node net) : Node net → Type 0 where
    here : Reach d n n
    next : {m k : Node net} → Reach d n m → Step d m k → Reach d n k

  pub heard-IsInSync :
      (n : Node net) (msg : Message) (n' : Node net)
      → (host_id == msg.from) ≡ false
      → IsWellFormed (from_bytes new_listening_shards msg.payload)
      → run_handler net shard_pref_handler msg n ≡ (ok tt, n')
      → IsInSync n
      → IsInSync n'
  unfolding run_handler
  heard-IsInSync n msg n' other fine e w =
      subst IsInSync (ap (λ (r : Outcome (Unit {0}) × Node net). r.1) e) (record {
        is_table =
            set_peer_listening_shard-IsTable n.shard_pref_table msg.from w.is_table
              (from_bytes new_listening_shards msg.payload) fine;
        agree = λ t ht. ground (
          arith,
          other,
          w.agree t ht,
          bytes_beq_iff host_id msg.from,
          bytes_beq_iff msg.from host_id,
          listens-set_peer_listening_shard n.shard_pref_table msg.from
              (from_bytes new_listening_shards msg.payload) host_id t,
        );
      })

  pub Step-IsInSync :
      (d : Discovery (Node net)) (laws : ShardDiscovery net d) {n n' : Node net}
      → Step d n n'
      → IsInSync n
      → IsInSync n'
  Step-IsInSync d laws {n} {n'} (listened num s h e) w =
      elim (Bool-cases (listens n.shard_pref_table host_id s)) [
        | inl on ↦
            subst IsInSync
              (ap (λ (r : Outcome (Unit {0}) × Node net). r.1)
                (sym (listen_shard-listened net d laws n num s w.is_table h on) ∙ e))
              w
        | inr off ↦
            joined-IsInSync n s n' h
              (subst (Joins net n s) e (listen_shard-Joins net d laws n num s w.is_table h off)) w
      ]
  Step-IsInSync d laws {n} {n'} (unlistened s h e) w =
      elim (Bool-cases (listens n.shard_pref_table host_id s)) [
        | inl on ↦
            left-IsInSync n s n' h
              (subst (Leaves net n s) e (unlisten_shard-Leaves net d laws n s w.is_table h on)) w
        | inr off ↦
            subst IsInSync
              (ap (λ (r : Outcome (Unit {0}) × Node net). r.1)
                (sym (unlisten_shard-not_listened net d laws n s w.is_table h off) ∙ e))
              w
      ]
  Step-IsInSync d laws {n} {n'} (heard msg other fine e) w = heard-IsInSync n msg n' other fine e w
  Step-IsInSync d laws {n} {n'} (elsewhere e) w =
      rw e (record { is_table = w.is_table; agree = w.agree })

  -- For a discovery service that keeps the contract ShardDiscovery: if the preference table is
  -- well formed, and the host is subscribed to the collation topic of each shard below 100 exactly
  -- when it lists the shard among its preferences, then the same holds after any sequence of
  -- successful ListenShard and UnlistenShard calls for shards below 100, of handled announcements
  -- by other peers of well-formed bit strings, and of changes of the world alone.
  pub Reach-IsInSync :
      (d : Discovery (Node net)) (laws : ShardDiscovery net d) {n n' : Node net}
      → IsInSync n
      → Reach d n n'
      → IsInSync n'
  Reach-IsInSync d laws w here = w
  Reach-IsInSync d laws w (next r st) = Step-IsInSync d laws st (Reach-IsInSync d laws w r)

  -- If NewShardManager returns, from the initial state of a node, then the table is well formed,
  -- and the host is subscribed to the collation topic of each shard below 100 exactly when it
  -- lists the shard.
  pub new_shard_manager-IsInSync :
      (w : World)
      → (new_shard_manager net (initial_node net w)).0 ≡ ok tt
      → IsInSync (new_shard_manager net (initial_node net w)).1
  unfolding new_shard_manager
  new_shard_manager-IsInSync w e =
      let sub =
        subscribe_topic-Subscribes net (initial_node net w) listening_shard_topic shard_pref_handler
          shard_pref_validator in
      record {
        is_table = rw sub.table (unfold initial_node in new_shard_pref_table-IsTable);
        agree = λ s h.
            sub.entered (not_fatal _ e) (get_collations_topic (pos s))
            ∙ rw (sub.table, listening_differs s)
                (unfold initial_node lookup in sym (listens-new host_id s));
      }

  -- For a discovery service that keeps its contract: if ListenShard fails for a shard below 100
  -- that the host does not listen to, in a state in which preferences and subscriptions agree,
  -- then the preference is entered, the topic is not subscribed to, and a second call returns
  -- without an error and changes nothing.
  pub listen_shard_failed :
      (d : Discovery (Node net)) (laws : ShardDiscovery net d) (n n' : Node net) (num : ℤ) (s : ℕ)
      (e : Error)
      → IsInSync n
      → s < num_shards
      → listens n.shard_pref_table host_id s ≡ false
      → listen_shard net d num (pos s) n ≡ (fail e, n')
      → (listens n'.shard_pref_table host_id s ≡ true)
        × (has_key (get_collations_topic (pos s)) n'.subs ≡ false)
        × (listen_shard net d num (pos s) n' ≡ (ok tt, n'))
  listen_shard_failed d laws n n' num s e w h off p =
      let j = subst (Joins net n s) p (listen_shard-Joins net d laws n num s w.is_table h off) in
      let on = j.relation host_id s ∙ ground (arith, ==_refl host_id) in
      (
        on,
        rw (j.failed e refl) (w.agree s h ∙ off),
        listen_shard-listened net d laws n' num s j.is_table h on,
      )
