-- ===== src/Manager/Threads/Stands.antt =====
-- Where a thread stands, what is known of its shard, and what one step changes.
use sharding_p2p_poc.Prelude.{
  ◌==◌, ==_refl, ℕ, ◌<◌, pos, bytes_eq, Bool, true, false, ◌≡◌, ◌≢◌, refl, sym, ap, ◌∙◌, arith,
  nat_beq_iff, if◌then◌else◌, Bool-cases, inl, inr,
}
use sharding_p2p_poc.Prelude.Assoc.{has_key}
use sharding_p2p_poc.Outcome.{ok, fail, panic, returns, fails, panics, ending}
use sharding_p2p_poc.Exec.{attempt}
use sharding_p2p_poc.Text.{format_int, get_collations_topic}
use sharding_p2p_poc.Shards.{num_shards}
use sharding_p2p_poc.PrefTable.View.{listens, IsTable, Relation}
use sharding_p2p_poc.Network.{Network}
use sharding_p2p_poc.State.{Node, OnlyWorld}
use sharding_p2p_poc.Discovery.{Discovery}
use sharding_p2p_poc.Discovery.Advertise.{toggled}
use sharding_p2p_poc.Discovery.Laws.{ShardDiscovery, Toggled}
use sharding_p2p_poc.Manager.{subscribe_collation, unsubscribe_collation}
use sharding_p2p_poc.Manager.Connect.{connect_shard_nodes}
use sharding_p2p_poc.Manager.Connect.Frame.{connect_shard_nodes-Quiet, Quiet-attempt}
use sharding_p2p_poc.Manager.Listen.{is_shard_listened_lem, subscribe_collation-Subscribes}
use sharding_p2p_poc.Manager.Unlisten.{unsubscribe_topic-Unsubscribes}
use sharding_p2p_poc.Manager.Sync.{same_topic}
use sharding_p2p_poc.Manager.Threads.{
  Call, listening, unlistening, shard_of, Place, checking, advertising, connecting, subscribing,
  unsubscribing, ended, ended_at, move,
}

-- What a thread knows of its shard: `on` is the preference, `key` the subscription. An error can
-- leave them apart.
abbrev pub Stands : Call → Place → Bool → Bool → Type 0
Stands c checking on key = on ≡ key
Stands (listening num s) advertising on key = (on ≡ false) × (key ≡ false)
Stands (listening num s) connecting on key = (on ≡ true) × (key ≡ false)
Stands (listening num s) subscribing on key = (on ≡ true) × (key ≡ false)
Stands (listening num s) unsubscribing on key = Unit
Stands (unlistening s) advertising on key = (on ≡ true) × (key ≡ true)
Stands (unlistening s) connecting on key = Unit
Stands (unlistening s) subscribing on key = Unit
Stands (unlistening s) unsubscribing on key = (on ≡ false) × (key ≡ true)
Stands c (ended (ok u)) on key = on ≡ key
Stands c (ended (fail e)) on key = Unit
Stands c (ended panic) on key = Unit

module _ (net : Network) where
  open net use {host_id}

  abbrev pub prefers : Node net → ℕ → Bool
  prefers n s = listens n.shard_pref_table host_id s

  abbrev pub subscribed : Node net → ℕ → Bool
  subscribed n s = has_key (get_collations_topic (pos s)) n.subs

  -- One step of a thread for the shard `s`: the table stays well formed, the other shards are as
  -- before, and the thread stands where it should.
  pub record Moved (c : Call) (n : Node net) (r : Place × Node net) : Type 0 where
    pub is_table : IsTable r.1.shard_pref_table
    pub others :
        (t : ℕ)
        → t < num_shards
        → shard_of c ≢ t
        → (prefers r.1 t ≡ prefers n t) × (subscribed r.1 t ≡ subscribed n t)
    pub stands : Stands c r.0 (prefers r.1 (shard_of c)) (subscribed r.1 (shard_of c))

  topics_differ :
      (s t : ℕ)
      → s < num_shards
      → t < num_shards
      → s ≢ t
      → (get_collations_topic (pos s) == get_collations_topic (pos t)) ≡ false
  topics_differ s t hs ht p = same_topic s t hs ht ∙ ground (arith, nat_beq_iff s t)

  toggled_other : (r : Relation) (s t : ℕ) → s ≢ t → toggled host_id s r host_id t ≡ r host_id t
  toggled_other r s t p = elim (Bool-cases (r host_id s)) [
    | inl on ↦ ground (arith, on, p, nat_beq_iff s t)
    | inr off ↦ ground (arith, off, p, nat_beq_iff s t)
  ]

  pub toggled_self :
      (r : Relation) (s : ℕ) → toggled host_id s r host_id s ≡ (if r host_id s then false else true)
  toggled_self r s = elim (Bool-cases (r host_id s)) [
    | inl on ↦ ground (arith, on, ==_refl host_id)
    | inr off ↦ ground (arith, off, ==_refl host_id)
  ]

  module _ (d : Discovery (Node net)) (laws : ShardDiscovery net d) where
    -- Nothing of the node but its world has changed.
    still :
        (c : Call) (n m : Node net) (p : Place)
        → OnlyWorld net n m
        → IsTable n.shard_pref_table
        → Stands c p (prefers n (shard_of c)) (subscribed n (shard_of c))
        → Moved c n (p, m)
    still c n m p e w st =
        rw e (record { is_table = w; others = λ t ht q. (refl, refl); stands = st })

    advertised :
        (c : Call) (n m : Node net) (p : Place)
        → Toggled net n (shard_of c) m
        → ((prefers m (shard_of c) ≡ (if prefers n (shard_of c) then false else true))
            → subscribed m (shard_of c) ≡ subscribed n (shard_of c)
            → Stands c p (prefers m (shard_of c)) (subscribed m (shard_of c)))
        → Moved c n (p, m)
    advertised c n m p tog st = record {
      is_table = tog.is_table;
      others = λ t ht q. (
        tog.relation host_id t ∙ toggled_other (listens n.shard_pref_table) (shard_of c) t q,
        ap (λ subs. has_key (get_collations_topic (pos t)) subs) tog.subs,
      );
      stands =
          st
            (tog.relation host_id (shard_of c)
              ∙ toggled_self (listens n.shard_pref_table) (shard_of c))
            (ap (λ subs. has_key (get_collations_topic (pos (shard_of c))) subs) tog.subs);
    }

    pub move-Moved :
        (c : Call) (p : Place) (n : Node net)
        → shard_of c < num_shards
        → IsTable n.shard_pref_table
        → Stands c p (prefers n (shard_of c)) (subscribed n (shard_of c))
        → Moved c n (move net d c p n)
    unfolding move
    move-Moved (listening num s) checking n h w st =
        rw (is_shard_listened_lem net n s w h) (elim (Bool-cases (prefers n s)) [
          | inl on ↦ rw on (still (listening num s) n n (ended (ok tt)) refl w st)
          | inr off ↦
              rw off (still (listening num s) n n advertising refl w (off, ground (arith, off, st)))
        ])
    move-Moved (listening num s) advertising n h w st =
        let a = d.advertise (format_int (pos s)) n in
        advertised (listening num s) n a.1 _ (laws.toggles n s w h) (λ on key. elim (ending a.0) [
          | returns u e ↦ rw e (ground (arith, on, st), ground (arith, key, st))
          | fails err e ↦ rw e tt
          | panics e ↦ rw e tt
        ])
    move-Moved (listening num s) connecting n h w st =
        let r = attempt (connect_shard_nodes net d num (pos s)) n in
        let quiet =
          (Quiet-attempt net (connect_shard_nodes net d num (pos s))
              (connect_shard_nodes-Quiet net d num (pos s) laws)).at
            n in
        still (listening num s) n r.1 (ended_at subscribing r.0) quiet w
          (elim (ending r.0) [ returns u e ↦ rw e st | fails err e ↦ rw e tt | panics e ↦ rw e tt ])
    move-Moved (listening num s) subscribing n h w st =
        let sub = subscribe_collation-Subscribes net n (pos s) in
        record {
          is_table = rw sub.table w;
          others = λ t ht q.
              (rw sub.table, sub.others (get_collations_topic (pos t)) (topics_differ s t h ht q));
          stands = elim (ending (subscribe_collation net (pos s) n).0) [
            | returns u e ↦ rw e (
                rw sub.table (
                  st.0
                  ∙ sym (
                      sub.entered e (get_collations_topic (pos s))
                      ∙ rw (==_refl (get_collations_topic (pos s))))))
            | fails err e ↦ rw e tt
            | panics e ↦ rw e tt
          ];
        }
    move-Moved (listening num s) unsubscribing n h w st =
        still (listening num s) n n unsubscribing refl w tt
    move-Moved (unlistening s) checking n h w st =
        rw (is_shard_listened_lem net n s w h) (elim (Bool-cases (prefers n s)) [
          | inl on ↦
              rw on (still (unlistening s) n n advertising refl w (on, ground (arith, on, st)))
          | inr off ↦ rw off (still (unlistening s) n n (ended (ok tt)) refl w st)
        ])
    move-Moved (unlistening s) advertising n h w st =
        let a = d.advertise (format_int (pos s)) n in
        advertised (unlistening s) n a.1 _ (laws.toggles n s w h) (λ on key. elim (ending a.0) [
          | returns u e ↦ rw e (ground (arith, on, st), ground (arith, key, st))
          | fails err e ↦ rw e tt
          | panics e ↦ rw e tt
        ])
    move-Moved (unlistening s) connecting n h w st = still (unlistening s) n n connecting refl w tt
    move-Moved (unlistening s) subscribing n h w st =
        still (unlistening s) n n subscribing refl w tt
    move-Moved (unlistening s) unsubscribing n h w st =
        let un = unsubscribe_topic-Unsubscribes net n (get_collations_topic (pos s)) in
        unfold unsubscribe_collation in
        record {
          is_table = rw un.table w;
          others = λ t ht q.
              (rw un.table, un.subs (get_collations_topic (pos t)) ∙ rw (topics_differ s t h ht q));
          stands = rw un.returned (
              rw un.table (
                st.0
                ∙ sym (
                    un.subs (get_collations_topic (pos s))
                    ∙ rw (==_refl (get_collations_topic (pos s))))));
        }
    move-Moved (listening num s) (ended r) n h w st =
        still (listening num s) n n (ended r) refl w st
    move-Moved (unlistening s) (ended r) n h w st = still (unlistening s) n n (ended r) refl w st
