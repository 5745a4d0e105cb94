-- ===== src/Manager/Threads/Progress.antt =====
-- Concurrent calls of `ListenShard` and `UnlistenShard`, for any shards: each of them returns.
use sharding_p2p_poc.Prelude.{
  ℕ, ◌-◌, ◌≤◌, ◌<◌, pos, bytes_eq, ◌≢◌, refl, arith, nat_beq, nat_beq_iff, subst, Bool-cases, inl,
  inr,
}
use sharding_p2p_poc.Outcome.{Outcome, ok, fail, panic}
use sharding_p2p_poc.Exec.{seen}
use sharding_p2p_poc.Text.{get_collations_topic}
use sharding_p2p_poc.Shards.{num_shards, new_listening_shards, from_bytes}
use sharding_p2p_poc.PrefTable.View.{listens, IsTable}
use sharding_p2p_poc.PrefTable.Ops.{set_peer_listening_shard-IsTable}
use sharding_p2p_poc.Network.{Network, general_handler, general_validator}
use sharding_p2p_poc.State.{Node}
use sharding_p2p_poc.Discovery.{Discovery}
use sharding_p2p_poc.Discovery.Laws.{ShardDiscovery}
use sharding_p2p_poc.Manager.{run_handler, subscribe_collation, unsubscribe_collation}
use sharding_p2p_poc.Manager.Connect.{connect_shard_nodes}
use sharding_p2p_poc.Manager.Connect.Frame.{connect_shard_nodes-Quiet, Quiet-attempt}
use sharding_p2p_poc.Manager.Listen.{is_shard_listened_lem, subscribe_collation-Subscribes}
use sharding_p2p_poc.Manager.Unlisten.{unsubscribe_topic-Unsubscribes}
use sharding_p2p_poc.Manager.Calm.{
  IsCalm, IsCalmDiscovery, connect_shard_nodes-calm, subscribe_topic-calm,
}
use sharding_p2p_poc.Manager.Threads.{
  Call, listening, unlistening, shard_of, Place, checking, advertising, connecting, subscribing,
  unsubscribing, ended, ended_at, move,
}
use sharding_p2p_poc.Manager.Threads.Safety.{
  System, update, Reach, Step, start, later, pick, heard, elsewhere,
}

-- A bound on the steps that a thread has still to make
abbrev pub turns_left : Place → ℕ
turns_left checking = 4
turns_left advertising = 3
turns_left connecting = 2
turns_left subscribing = 1
turns_left unsubscribing = 1
turns_left (ended r) = 0

-- The places that a method comes to; it does not end in a panic.
abbrev Fits : Call → Place → Type 0
Fits c (ended panic) = ⊥
Fits (listening num s) unsubscribing = ⊥
Fits (unlistening s) connecting = ⊥
Fits (unlistening s) subscribing = ⊥
Fits c p = Unit

module _ (net : Network) (d : Discovery (Node net)) (calm : IsCalm net)
    (finds : IsCalmDiscovery net d) (laws : ShardDiscovery net d) where
  record Advances (c : Call) (p : Place) (r : Place × Node net) : Type 0 where
    is_table : IsTable r.1.shard_pref_table
    fits : Fits c r.0
    less : turns_left r.0 ≤ turns_left p - 1

  -- A call that does not panic, at the places where an error ends the method
  ended_at-Advances {ℓ} :
      {A : Type ℓ} (c : Call) (p next : Place) (r : Outcome A) (m : Node net)
      → r ≢ panic
      → IsTable m.shard_pref_table
      → Fits c next
      → turns_left next ≤ turns_left p - 1
      → Advances c p (ended_at next r, m)
  ended_at-Advances c p next (ok a) m h w f lt = record { is_table = w; fits = f; less = lt }
  ended_at-Advances c p next (fail e) m h w f lt = record {
    is_table = w;
    fits = tt;
    less = omega arith;
  }
  ended_at-Advances c p next panic m h w f lt = absurd (h refl)

  ended-Advances :
      (c : Call) (p : Place) (r : Outcome (Unit {0})) (m : Node net)
      → r ≢ panic
      → IsTable m.shard_pref_table
      → Advances c p (ended r, m)
  ended-Advances c p (ok u) m h w = record { is_table = w; fits = tt; less = omega arith }
  ended-Advances c p (fail e) m h w = record { is_table = w; fits = tt; less = omega arith }
  ended-Advances c p panic m h w = absurd (h refl)

  attempt-calm {ℓ} : {A : Type ℓ} (r : Outcome A) (m : Node net) → r ≢ panic → (seen r m).0 ≢ panic
  attempt-calm (ok a) m h = λ p. cc
  attempt-calm (fail e) m h = λ p. cc
  attempt-calm panic m h = absurd (h refl)

  move-Advances :
      (c : Call) (p : Place) (n : Node net)
      → shard_of c < num_shards
      → IsTable n.shard_pref_table
      → Fits c p
      → Advances c p (move net d c p n)
  unfolding move
  move-Advances (listening num s) checking n h w f =
      rw (is_shard_listened_lem net n s w h)
        (elim (Bool-cases (listens n.shard_pref_table net.host_id s)) [
          | inl on ↦ rw on (record { is_table = w; fits = tt; less = omega arith })
          | inr off ↦ rw off (record { is_table = w; fits = tt; less = omega arith })
        ])
  move-Advances (unlistening s) checking n h w f =
      rw (is_shard_listened_lem net n s w h)
        (elim (Bool-cases (listens n.shard_pref_table net.host_id s)) [
          | inl on ↦ rw on (record { is_table = w; fits = tt; less = omega arith })
          | inr off ↦ rw off (record { is_table = w; fits = tt; less = omega arith })
        ])
  move-Advances (listening num s) advertising n h w f =
      ended_at-Advances (listening num s) advertising connecting _ _ (finds.advertises n s w h)
        (laws.toggles n s w h).is_table tt (omega arith)
  move-Advances (unlistening s) advertising n h w f =
      ended_at-Advances (unlistening s) advertising unsubscribing _ _ (finds.advertises n s w h)
        (laws.toggles n s w h).is_table tt (omega arith)
  move-Advances (listening num s) connecting n h w f =
      let r = connect_shard_nodes net d num (pos s) n in
      let quiet =
        (Quiet-attempt net (connect_shard_nodes net d num (pos s))
            (connect_shard_nodes-Quiet net d num (pos s) laws)).at
          n in
      ended_at-Advances (listening num s) connecting subscribing _ _
        (attempt-calm r.0 r.1 (connect_shard_nodes-calm net calm d finds n num s w h)) (rw quiet w)
        tt (omega arith)
  move-Advances (listening num s) subscribing n h w f =
      let sub = subscribe_collation-Subscribes net n (pos s) in
      ended-Advances (listening num s) subscribing _ _
        (unfold subscribe_collation in
          subscribe_topic-calm net calm n (get_collations_topic (pos s)) general_handler
            general_validator)
        (rw sub.table w)
  move-Advances (unlistening s) unsubscribing n h w f =
      let un = unsubscribe_topic-Unsubscribes net n (get_collations_topic (pos s)) in
      unfold unsubscribe_collation in
      ended-Advances (unlistening s) unsubscribing _ _ (λ p. absurd (cc (un.returned)))
        (rw un.table w)
  move-Advances (listening num s) unsubscribing n h w f = absurd f
  move-Advances (unlistening s) connecting n h w f = absurd f
  move-Advances (unlistening s) subscribing n h w f = absurd f
  move-Advances (listening num s) (ended r) n h w f = record {
    is_table = w;
    fits = f;
    less = omega arith;
  }
  move-Advances (unlistening s) (ended r) n h w f = record {
    is_table = w;
    fits = f;
    less = omega arith;
  }

  module _ (count : ℕ) (call : ℕ → Call)
      (in_range : (i : ℕ) → i < count → shard_of (call i) < num_shards) where
    record Inv (s : System net) : Type 0 where
      is_table : IsTable s.node.shard_pref_table
      fits : (i : ℕ) → i < count → Fits (call i) (s.place i)

    updated-Fits :
        (place : ℕ → Place) (i j : ℕ) (p : Place)
        → Fits (call i) p
        → Fits (call j) (place j)
        → Fits (call j) (update place i p j)
    updated-Fits place i j p new old = elim (Bool-cases (nat_beq i j)) [
      | inl e ↦ rw e (subst (λ k. Fits (call k) p) ((nat_beq_iff i j).0 e) new)
      | inr e ↦ rw e old
    ]

    Step-Inv : {s t : System net} → Step net d count call s t → Inv s → Inv t
    Step-Inv {s} (pick i h) inv =
        let a =
          move-Advances (call i) (s.place i) s.node (in_range i h) inv.is_table (inv.fits i h) in
        record {
          is_table = a.is_table;
          fits = λ j hj. updated-Fits s.place i j _ a.fits (inv.fits j hj);
        }
    Step-Inv {s} (heard msg other fine) inv = record {
      is_table =
          unfold run_handler in
          set_peer_listening_shard-IsTable s.node.shard_pref_table msg.from inv.is_table
            (from_bytes new_listening_shards msg.payload) fine;
      fits = inv.fits;
    }
    Step-Inv (elsewhere n e) inv = record { is_table = rw e inv.is_table; fits = inv.fits }

    checking-Fits : (c : Call) → Fits c checking
    checking-Fits (listening num s) = tt
    checking-Fits (unlistening s) = tt

    Reach-Inv :
        {n : Node net} {s : System net}
        → IsTable n.shard_pref_table
        → Reach net d count call n s
        → Inv s
    Reach-Inv w start = record { is_table = w; fits = λ i h. checking-Fits (call i) }
    Reach-Inv w (later r st) = Step-Inv st (Reach-Inv w r)

    Fits-panic : (c : Call) → Fits c (ended panic) → ⊥
    Fits-panic (listening num s) f = f
    Fits-panic (unlistening s) f = f

    -- If no library call panics and pubsub lists a topic's peers once each, with a discovery
    -- service that does not panic and keeps its contract, from a node with a well-formed table:
    -- while any number of concurrent calls of ListenShard and UnlistenShard for shards below 100,
    -- several for one shard included, make their steps, each a whole call such as Advertise, in
    -- any order with handled announcements of other peers of well-formed bit strings and changes
    -- of the world, no call has ended in a panic, each has at most four steps left, and a step of
    -- a call leaves it at least one step less, unless none was left.
    pub Reach-turns :
        {n : Node net} {s : System net}
        → IsTable n.shard_pref_table
        → Reach net d count call n s
        → (i : ℕ) → i < count
        → (s.place i ≢ ended panic)
          × (turns_left (s.place i) ≤ 4)
          × (turns_left (move net d (call i) (s.place i) s.node).0 ≤ turns_left (s.place i) - 1)
    Reach-turns {s = s} w r i h =
        let inv = Reach-Inv w r in
        let a =
          move-Advances (call i) (s.place i) s.node (in_range i h) inv.is_table (inv.fits i h) in
        (
          λ e. Fits-panic (call i) (subst (Fits (call i)) e (inv.fits i h)),
          at_most_4 (s.place i),
          a.less,
        )
      where
        at_most_4 : (p : Place) → turns_left p ≤ 4
        at_most_4 checking = omega arith
        at_most_4 advertising = omega arith
        at_most_4 connecting = omega arith
        at_most_4 subscribing = omega arith
        at_most_4 unsubscribing = omega arith
        at_most_4 (ended r) = omega arith
