-- ===== src/Manager/Subs/Safety.antt =====
-- Concurrent calls of `SubscribeTopic` and `UnsubscribeTopic` for different topics: what they leave.
use sharding_p2p_poc.Prelude.{
  ℕ, zero, suc, ◌≤◌, ◌<◌, ◌==◌, Bytes, bytes_eq, bytes_beq_iff, Bool, true, false, ◌≡◌, refl, ◌∙◌,
  subst, arith, nat_beq, nat_beq_iff, if◌then◌else◌, Bool-cases, inl, inr,
}
use sharding_p2p_poc.Prelude.Assoc.{has_key}
use sharding_p2p_poc.Outcome.{ok}
use sharding_p2p_poc.Network.{Network}
use sharding_p2p_poc.State.{Node}
use sharding_p2p_poc.Manager.Subs.{
  Call, subscribing, unsubscribing, topic_of, Place, ended, first_place, part,
}
use sharding_p2p_poc.Manager.Subs.Topics.{Shows, Fits, part-Moved}

abbrev is_subscribing : Call → Bool
is_subscribing (subscribing topic handler validator) = true
is_subscribing (unsubscribing topic) = false

-- The node, and where each call stands
pub record System (net : Network) : Type 0 where
  pub node : Node net
  pub place : ℕ → Place net

module _ (net : Network) (count : ℕ) (call : ℕ → Call) where
  abbrev moved : (ℕ → Place net) → ℕ → Place net → ℕ → Place net
  moved place i p j = if nat_beq i j then p else place j

  -- The next step of one of the calls
  abbrev pub picked : ℕ → System net → System net
  picked i s =
      let r = part net (call i) (s.place i) s.node in
      record { node = r.1; place = moved s.place i r.0 }

  -- From a node, with every call at its start
  pub data Reach (n : Node net) : System net → Type 0 where
    start : Reach n (record { node = n; place = λ i. first_place net (call i) })
    pick : {s : System net} → Reach n s → (i : ℕ) → i < count → Reach n (picked i s)

  -- Is a topic subscribed to after the first `k` calls, one after the other?
  abbrev pub wanted : ℕ → Bytes → Bool → Bool
  wanted zero t old = old
  wanted (suc k) t old = if topic_of (call k) == t then is_subscribing (call k) else wanted k t old

  module _ (n : Node net)
      (apart : (i j : ℕ)
        → i < count
        → j < count
        → (topic_of (call i) == topic_of (call j)) ≡ nat_beq i j) where
    record Inv (s : System net) : Type 0 where
      fits : (i : ℕ) → i < count → Fits net (call i) (s.place i)
      shows :
          (i : ℕ)
          → i < count
          → Shows net
              (call i)
              (s.place i)
              (has_key (topic_of (call i)) n.subs)
              (has_key (topic_of (call i)) s.node.subs)
      free :
          (t : Bytes)
          → ((i : ℕ) → i < count → (topic_of (call i) == t) ≡ false)
          → has_key t s.node.subs ≡ has_key t n.subs
      table : s.node.shard_pref_table ≡ n.shard_pref_table

    start-Fits : (c : Call) → Fits net c (first_place net c)
    start-Fits (subscribing t h v) = tt
    start-Fits (unsubscribing t) = tt

    start-Shows : (c : Call) (old : Bool) → Shows net c (first_place net c) old old
    start-Shows (subscribing t h v) old = refl
    start-Shows (unsubscribing t) old = refl

    picked-Inv : (s : System net) (i : ℕ) → i < count → Inv s → Inv (picked i s)
    picked-Inv s i h inv =
        let m =
          part-Moved net (call i) (has_key (topic_of (call i)) n.subs) (s.place i) s.node
            (inv.fits i h) (inv.shows i h) in
        record {
          fits = λ j hj. elim (Bool-cases (nat_beq i j)) [
            | inl e ↦ rw e (
                subst (λ k. Fits net (call k) (part net (call i) (s.place i) s.node).0)
                  ((nat_beq_iff i j).0 e) m.fits)
            | inr e ↦ rw e (inv.fits j hj)
          ];
          shows = λ j hj. elim (Bool-cases (nat_beq i j)) [
            | inl e ↦ rw e (
                subst
                  (λ k.
                    Shows net (call k) (part net (call i) (s.place i) s.node).0
                      (has_key (topic_of (call k)) n.subs)
                      (has_key (topic_of (call k)) (part net (call i) (s.place i) s.node).1.subs))
                  ((nat_beq_iff i j).0 e) m.own)
            | inr e ↦ rw (e, m.others (topic_of (call j)) (apart i j h hj ∙ e)) (inv.shows j hj)
          ];
          free = λ t q. m.others t (q i h) ∙ inv.free t q;
          table = m.table ∙ inv.table;
        }

    Reach-Inv : {s : System net} → Reach n s → Inv s
    Reach-Inv start = record {
      fits = λ i h. start-Fits (call i);
      shows = λ i h. start-Shows (call i) (has_key (topic_of (call i)) n.subs);
      free = λ t q. refl;
      table = refl;
    }
    Reach-Inv (pick {s} r i h) = picked-Inv s i h (Reach-Inv r)

    returned-Shows :
        (c : Call) (p : Place net) (old key : Bool)
        → Shows net c p old key
        → p ≡ ended (ok tt)
        → key ≡ is_subscribing c
    returned-Shows c p old key h e = by_call c (subst (λ q. Shows net c q old key) e h)
      where
        by_call : (c' : Call) → Shows net c' (ended (ok tt)) old key → key ≡ is_subscribing c'
        by_call (subscribing t h' v) s = s
        by_call (unsubscribing t) s = s

    key_wanted :
        (s : System net)
        → Inv s
        → ((i : ℕ) → i < count → s.place i ≡ ended (ok tt))
        → (t : Bytes) (k : ℕ) → k ≤ count
        → ((i : ℕ) → k ≤ i → i < count → (topic_of (call i) == t) ≡ false)
        → has_key t s.node.subs ≡ wanted k t (has_key t n.subs)
    key_wanted s inv done t zero h rest = inv.free t (λ i lt. rest i (omega arith) lt)
    key_wanted s inv done t (suc k) h rest = elim (Bool-cases (topic_of (call k) == t)) [
      | inl e ↦ rw e (
          subst (λ q. has_key q s.node.subs ≡ is_subscribing (call k))
            ((bytes_beq_iff (topic_of (call k)) t).0 e)
            (returned-Shows (call k) (s.place k) _ _ (inv.shows k h) (done k h)))
      | inr e ↦ rw e (
          key_wanted s inv done t k (omega arith) (λ i le lt. elim (Bool-cases (nat_beq k i)) [
            | inl same ↦ subst (λ j. (topic_of (call j) == t) ≡ false) ((nat_beq_iff k i).0 same) e
            | inr other ↦ rest i (ground (arith, other, le)) lt
          ]))
    ]

    -- Any number of concurrent calls of SubscribeTopic and UnsubscribeTopic, each for its own
    -- topic, make their steps, between which the lock of the subscriptions is free, in any order:
    -- when all have returned without an error, a topic is subscribed to exactly when a call
    -- subscribed to it, or when no call was for it and it was before, and the preference table is
    -- as it was.
    pub Reach-subs :
        {s : System net}
        → Reach n s
        → ((i : ℕ) → i < count → s.place i ≡ ended (ok tt))
        → ((t : Bytes) → has_key t s.node.subs ≡ wanted count t (has_key t n.subs))
          × (s.node.shard_pref_table ≡ n.shard_pref_table)
    Reach-subs {s} r done =
        let inv = Reach-Inv r in
        (
          λ t. key_wanted s inv done t count (omega arith) (λ i le lt. absurd (omega arith)),
          inv.table,
        )
