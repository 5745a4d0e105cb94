-- ===== src/Manager/Threads/Race.antt =====
-- Two concurrent calls of `ListenShard` for one shard. `Advertise` toggles, and the test before it
-- is made under another lock.
use sharding_p2p_poc.Prelude.{
  ==_refl, ℕ, ◌<◌, ℤ, pos, bytes_eq, Bool, true, false, ◌≡◌, ◌≢◌, refl, ◌∙◌, List, [], ◌∷◌,
  if◌then◌else◌,
}
use sharding_p2p_poc.Outcome.{Outcome, ok, fail, panic, returns, fails, panics, ending}
use sharding_p2p_poc.Exec.{attempt}
use sharding_p2p_poc.Text.{format_int, get_collations_topic}
use sharding_p2p_poc.Shards.{num_shards}
use sharding_p2p_poc.PrefTable.View.{IsTable, listens}
use sharding_p2p_poc.Network.{Network}
use sharding_p2p_poc.State.{Node, OnlyWorld}
use sharding_p2p_poc.Discovery.{Discovery}
use sharding_p2p_poc.Discovery.Laws.{ShardDiscovery}
use sharding_p2p_poc.Manager.Connect.{connect_shard_nodes}
use sharding_p2p_poc.Manager.Connect.Frame.{connect_shard_nodes-Quiet, Quiet-attempt}
use sharding_p2p_poc.Manager.Listen.{is_shard_listened_lem, subscribe_collation-Subscribes}
use sharding_p2p_poc.Manager.Threads.{
  Call, listening, Place, checking, advertising, connecting, subscribing, unsubscribing, ended,
  ended_at, move,
}
use sharding_p2p_poc.Manager.Threads.Stands.{prefers, subscribed, toggled_self}
use sharding_p2p_poc.Manager.Threads.Safety.{System, update}

module _ (net : Network) (d : Discovery (Node net)) where
  open net use {host_id}

  -- The threads make steps in a given order.
  abbrev pub turn : (ℕ → Call) → ℕ → System net → System net
  turn call i s =
      let r = move net d (call i) (s.place i) s.node in
      record { node = r.1; place = update s.place i r.0 }

  unfoldable pub run : (ℕ → Call) → List ℕ → System net → System net
  run call [] s = s
  run call (i ∷ is) s = run call is (turn call i s)

  -- The two threads take turns.
  abbrev pub in_turns : List ℕ
  in_turns = 0 ∷ 1 ∷ 0 ∷ 1 ∷ 0 ∷ 1 ∷ 0 ∷ 1 ∷ []

  abbrev pub all_checking : Node net → System net
  all_checking n = record { node = n; place = λ i. checking }

  -- Behind the announcement, and not at a success
  abbrev Late : Place → Type 0
  Late connecting = Unit
  Late subscribing = Unit
  Late (ended (fail e)) = Unit
  Late (ended panic) = Unit
  Late p = ⊥

  Late-ended_at : (next : Place) (r : Outcome (Unit {0})) → Late next → Late (ended_at next r)
  Late-ended_at next (ok u) h = h
  Late-ended_at next (fail e) h = tt
  Late-ended_at next panic h = tt

  module _ (laws : ShardDiscovery net d) (num : ℤ) (s : ℕ) where
    abbrev call : Call
    call = listening num s

    -- The table is well formed, and the host has the preference or not.
    record Kept (m : Node net) (on : Bool) : Type 0 where
      is_table : IsTable m.shard_pref_table
      prefers_s : prefers net m s ≡ on

    move-Late :
        (p : Place) (n : Node net) (on : Bool)
        → Late p
        → Kept n on
        → Kept (move net d call p n).1 on
    unfolding move
    move-Late checking n on h k = elim h [ ]
    move-Late advertising n on h k = elim h [ ]
    move-Late unsubscribing n on h k = elim h [ ]
    move-Late (ended (ok u)) n on h k = elim h [ ]
    move-Late connecting n on h k =
        let quiet : OnlyWorld net n (attempt (connect_shard_nodes net d num (pos s)) n).1 =
          (Quiet-attempt net (connect_shard_nodes net d num (pos s))
              (connect_shard_nodes-Quiet net d num (pos s) laws)).at
            n in
        rw quiet (record { is_table = k.is_table; prefers_s = k.prefers_s })
    move-Late subscribing n on h k =
        let sub = subscribe_collation-Subscribes net n (pos s) in
        record { is_table = rw sub.table k.is_table; prefers_s = rw sub.table k.prefers_s }
    move-Late (ended (fail e)) n on h k = k
    move-Late (ended panic) n on h k = k

    place-Late :
        (r : Outcome (Unit {0})) (n : Node net) → Late (move net d call (ended_at connecting r) n).0
    unfolding move
    place-Late (ok u) n = elim (ending (attempt (connect_shard_nodes net d num (pos s)) n).0) [
      | returns c e ↦ rw e tt
      | fails err e ↦ rw e tt
      | panics e ↦ rw e tt
    ]
    place-Late (fail e) n = tt
    place-Late panic n = tt

    -- A thread that ends without an error has subscribed.
    key-Late :
        (p : Place) (m : Node net)
        → Late p
        → p ≢ connecting
        → (move net d call p m).0 ≡ ended (ok tt)
        → subscribed net (move net d call p m).1 s ≡ true
    unfolding move
    key-Late checking m h q e = elim h [ ]
    key-Late advertising m h q e = elim h [ ]
    key-Late unsubscribing m h q e = elim h [ ]
    key-Late (ended (ok u)) m h q e = elim h [ ]
    key-Late connecting m h q e = absurd (q refl)
    key-Late subscribing m h q e =
        (subscribe_collation-Subscribes net m (pos s)).entered (ended_injective e)
          (get_collations_topic (pos s))
        ∙ rw (==_refl (get_collations_topic (pos s)))
      where
        ended_injective : {r r' : Outcome (Unit {0})} → ended r ≡ ended r' → r ≡ r'
        ended_injective p = cc
    key-Late (ended (fail err)) m h q e = cc
    key-Late (ended panic) m h q e = cc

    left_connecting :
        (r : Outcome (Unit {0})) (n : Node net)
        → (move net d call (ended_at connecting r) n).0 ≢ connecting
    unfolding move
    left_connecting (ok u) n p =
        elim (ending (attempt (connect_shard_nodes net d num (pos s)) n).0) [
          | returns c e ↦ cc
          | fails err e ↦ cc
          | panics e ↦ cc
        ]
    left_connecting (fail e) n p = cc
    left_connecting panic n p = cc

    advertised_move :
        (n : Node net) (on : Bool)
        → s < num_shards
        → Kept n on
        → Kept (move net d call advertising n).1 (if on then false else true)
    unfolding move
    advertised_move n on h k =
        let t = laws.toggles n s k.is_table h in
        record {
          is_table = t.is_table;
          prefers_s =
              t.relation host_id s
              ∙ (toggled_self net (listens n.shard_pref_table) s ∙ rw k.prefers_s);
        }

    checking_move :
        (n : Node net)
        → IsTable n.shard_pref_table
        → s < num_shards
        → prefers net n s ≡ false
        → move net d call checking n ≡ (advertising, n)
    unfolding move
    checking_move n w h off = rw (is_shard_listened_lem net n s w h, off)

    advertising_move :
        (n : Node net)
        → let a = d.advertise (format_int (pos s)) n in
          move net d call advertising n ≡ (ended_at connecting a.0, a.1)
    unfolding move
    advertising_move n = refl

    -- The turns behind the tests, from the announcements on
    after_tests :
        (n : Node net) (r0 r1 : Outcome (Unit {0})) (m : Node net)
        → Kept m false
        → let c0 = move net d call (ended_at connecting r0) m in
          let c1 = move net d call (ended_at connecting r1) c0.1 in
          let s0 = move net d call c0.0 c1.1 in
          let s1 = move net d call c1.0 s0.1 in
          s1.0 ≡ ended (ok tt) → (prefers net s1.1 s ≡ false) × (subscribed net s1.1 s ≡ true)
    after_tests n r0 r1 m k done =
        let c0 = move net d call (ended_at connecting r0) m in
        let c1 = move net d call (ended_at connecting r1) c0.1 in
        let s0 = move net d call c0.0 c1.1 in
        let k0 = move-Late (ended_at connecting r0) m false (Late-ended_at connecting r0 tt) k in
        let k1 =
          move-Late (ended_at connecting r1) c0.1 false (Late-ended_at connecting r1 tt) k0 in
        let k2 = move-Late c0.0 c1.1 false (place-Late r0 m) k1 in
        let k3 = move-Late c1.0 s0.1 false (place-Late r1 c0.1) k2 in
        (k3.prefers_s, key-Late c1.0 s0.1 (place-Late r1 c0.1) (left_connecting r1 c0.1) done)

    -- For a discovery service that keeps its contract, a well-formed table, and a shard below 100
    -- that the host does not list: if two concurrent calls of ListenShard for the shard take turns
    -- step by step and the second returns without an error, then the host does not list the shard
    -- and is subscribed to its topic.
    pub listen_twice :
        (n : Node net)
        → IsTable n.shard_pref_table
        → s < num_shards
        → prefers net n s ≡ false
        → (run (λ i. call) in_turns (all_checking n)).place 1 ≡ ended (ok tt)
        → (prefers net (run (λ i. call) in_turns (all_checking n)).node s ≡ false)
          × (subscribed net (run (λ i. call) in_turns (all_checking n)).node s ≡ true)
    unfolding run
    listen_twice n w h off done =
        let test = checking_move n w h off in
        let a0 = d.advertise (format_int (pos s)) n in
        let k0 = advertised_move n false h (record { is_table = w; prefers_s = off }) in
        let k1 = advertised_move a0.1 true h (unfold move in k0) in
        let a1 = d.advertise (format_int (pos s)) a0.1 in
        let first = advertising_move n in
        let second = advertising_move a0.1 in
        rw (test, test, first, second)
          (after_tests n a0.0 a1.0 a1.1 (unfold move in k1)
            (rw (test, test, first, second) at done))
