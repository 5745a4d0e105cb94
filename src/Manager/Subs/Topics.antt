-- ===== src/Manager/Subs/Topics.antt =====
-- Concurrent calls of `SubscribeTopic` and `UnsubscribeTopic` for different topics.
use sharding_p2p_poc.Prelude.{
  ◌==◌, Bytes, bytes_eq, bytes_beq_iff, Bool, true, false, ◌≡◌, ◌≢◌, refl, arith, Option-cases,
  Option, none, some, inl, inr,
}
use sharding_p2p_poc.Prelude.Assoc.{lookup, has_key, lookup-insert, lookup-delete}
use sharding_p2p_poc.Outcome.{ok, fail, panic, returns, fails, panics, ending}
use sharding_p2p_poc.Network.{Network, TopicValidator}
use sharding_p2p_poc.State.{Node}
use sharding_p2p_poc.Manager.{register}
use sharding_p2p_poc.Manager.Subs.{
  Call, subscribing, unsubscribing, topic_of, Place, calling, looking, deleting, storing,
  registering, starting, cancelling, ended, part,
}

module _ (net : Network) where
  -- Whether the topic is subscribed to (`key`), with a call at a place, where `old` says whether it
  -- was at the start. A panic would end the process.
  abbrev pub Shows : Call → Place net → Bool → Bool → Type 0
  Shows c (ended panic) old key = Unit
  Shows (subscribing topic handler validator) (registering sub) old key = key ≡ true
  Shows (subscribing topic handler validator) (starting sub) old key = key ≡ true
  Shows (subscribing topic handler validator) (ended (ok u)) old key = key ≡ true
  Shows (unsubscribing topic) (ended (ok u)) old key = key ≡ false
  Shows c p old key = key ≡ old

  -- The places that a method comes to
  abbrev pub Fits : Call → Place net → Type 0
  Fits (subscribing topic handler validator) looking = ⊥
  Fits (subscribing topic handler validator) deleting = ⊥
  Fits (subscribing topic handler validator) (cancelling sub) = ⊥
  Fits (unsubscribing topic) calling = ⊥
  Fits (unsubscribing topic) (storing sub) = ⊥
  Fits (unsubscribing topic) (registering sub) = ⊥
  Fits (unsubscribing topic) (starting sub) = ⊥
  Fits c p = Unit

  -- A step changes the key of its topic as the places say, and no other key, and not the table.
  pub record Moved (c : Call) (old : Bool) (n : Node net) (r : Place net × Node net) : Type 0 where
    pub fits : Fits c r.0
    pub own : Shows c r.0 old (has_key (topic_of c) r.1.subs)
    pub others : (t : Bytes) → (topic_of c == t) ≡ false → has_key t r.1.subs ≡ has_key t n.subs
    pub table : r.1.shard_pref_table ≡ n.shard_pref_table

  -- The subscriptions and the table are as before.
  still :
      (c : Call) (old : Bool) (n m : Node net) (p : Place net)
      → m.subs ≡ n.subs
      → m.shard_pref_table ≡ n.shard_pref_table
      → Fits c p
      → Shows c p old (has_key (topic_of c) n.subs)
      → Moved c old n (p, m)
  still c old n m p e f g h = record { fits = g; own = rw e h; others = λ t q. rw e; table = f }

  register_keeps :
      (topic : Bytes) (v : Option TopicValidator) (n : Node net)
      → ((register net topic v n).1.subs ≡ n.subs)
        × ((register net topic v n).1.shard_pref_table ≡ n.shard_pref_table)
  register_keeps topic none n = (refl, refl)
  register_keeps topic (some v) n = elim (ending (net.register_topic_validator topic v n.world).0) [
    | returns u e ↦ ground (arith, e)
    | fails err e ↦ ground (arith, e)
    | panics e ↦ ground (arith, e)
  ]

  register-no_error :
      (topic : Bytes) (v : Option TopicValidator) (n : Node net) (e : _)
      → (register net topic v n).0 ≢ fail e
  register-no_error topic none n e p = cc
  register-no_error topic (some v) n e p =
      elim (ending (net.register_topic_validator topic v n.world).0) [
        | returns u q ↦ absurd (ground (arith, q, p))
        | fails err q ↦ absurd (ground (arith, q, p))
        | panics q ↦ absurd (ground (arith, q, p))
      ]

  pub part-Moved :
      (c : Call) (old : Bool) (p : Place net) (n : Node net)
      → Fits c p
      → Shows c p old (has_key (topic_of c) n.subs)
      → Moved c old n (part net c p n)
  unfolding part
  part-Moved (subscribing t h v) old calling n f e = elim (ending (net.subscribe t n.world).0) [
    | returns sub q ↦ rw q (still (subscribing t h v) old n _ (storing sub) refl refl tt e)
    | fails err q ↦ rw q (still (subscribing t h v) old n _ (ended (fail err)) refl refl tt e)
    | panics q ↦ rw q (still (subscribing t h v) old n _ (ended panic) refl refl tt tt)
  ]
  part-Moved (subscribing t h v) old (storing sub) n f e = record {
    fits = tt;
    own = ground (arith, lookup-insert t t sub n.subs, bytes_beq_iff t t);
    others = λ k q. ground (arith, lookup-insert t k sub n.subs, q);
    table = refl;
  }
  part-Moved (subscribing t h v) old (registering sub) n f e =
      let (subs, table) = register_keeps t v n in
      elim (ending (register net t v n).0) [
        | returns u q ↦ rw q (still (subscribing t h v) old n _ (starting sub) subs table tt e)
        | fails err q ↦ absurd (register-no_error t v n err q)
        | panics q ↦ rw q (still (subscribing t h v) old n _ (ended panic) subs table tt tt)
      ]
  part-Moved (subscribing t h v) old (starting sub) n f e =
      still (subscribing t h v) old n _ (ended (ok tt)) refl refl tt e
  part-Moved (subscribing t h v) old (ended r) n f e =
      still (subscribing t h v) old n n (ended r) refl refl f e
  part-Moved (subscribing t h v) old looking n f e = absurd f
  part-Moved (subscribing t h v) old deleting n f e = absurd f
  part-Moved (subscribing t h v) old (cancelling sub) n f e = absurd f
  part-Moved (unsubscribing t) old looking n f e = elim (Option-cases (lookup t n.subs)) [
    | inl q ↦
        rw q (still (unsubscribing t) old n n (ended (ok tt)) refl refl tt (ground (arith, q)))
    | inr (sub, q) ↦ rw q (still (unsubscribing t) old n n (cancelling sub) refl refl tt e)
  ]
  part-Moved (unsubscribing t) old (cancelling sub) n f e =
      still (unsubscribing t) old n _ deleting refl refl tt e
  part-Moved (unsubscribing t) old deleting n f e = record {
    fits = tt;
    own = ground (arith, lookup-delete t t n.subs, bytes_beq_iff t t);
    others = λ k q. ground (arith, lookup-delete t k n.subs, q);
    table = refl;
  }
  part-Moved (unsubscribing t) old (ended r) n f e =
      still (unsubscribing t) old n n (ended r) refl refl f e
  part-Moved (unsubscribing t) old calling n f e = absurd f
  part-Moved (unsubscribing t) old (storing sub) n f e = absurd f
  part-Moved (unsubscribing t) old (registering sub) n f e = absurd f
  part-Moved (unsubscribing t) old (starting sub) n f e = absurd f
