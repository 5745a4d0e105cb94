-- ===== src/Manager/Subs/Leak.antt =====
-- An `UnsubscribeTopic` that a `SubscribeTopic` of the same topic overtakes.
use sharding_p2p_poc.Prelude.{
  Bytes, bytes_eq, false, ◌≡◌, ◌≢◌, ◌∙◌, refl, arith, ◌∷◌, none, some, ==_refl,
}
use sharding_p2p_poc.Prelude.Assoc.{lookup, has_key, insert, delete, lookup-delete}
use sharding_p2p_poc.Outcome.{ok, panic, returns, fails, panics, ending}
use sharding_p2p_poc.Network.{Network, TopicHandler, TopicValidator}
use sharding_p2p_poc.State.{Node}
use sharding_p2p_poc.Manager.{unsubscribe_topic}
use sharding_p2p_poc.Manager.Subs.{
  subscribing, unsubscribing, Place, calling, looking, ended, part, alone,
}

module _ (net : Network) where
  open net use {World, Subscription, subscribe, cancel, register_topic_validator}

  pub record Both : Type 0 where
    pub node : Node net
    pub unsubscriber : Place net
    pub subscriber : Place net

  -- The one has read and cancelled the old subscription when the other runs; then it deletes.
  unfoldable pub overtaken : Bytes → TopicHandler → TopicValidator → Node net → Both
  overtaken topic handler v n =
      let read = alone net 2 (unsubscribing topic) looking n in
      let subscribed = alone net 4 (subscribing topic handler (some v)) calling read.1 in
      let deleted = part net (unsubscribing topic) read.0 subscribed.1 in
      record { node = deleted.1; unsubscriber = deleted.0; subscriber = subscribed.0 }

  -- Both methods have returned without an error, and the reader of the new subscription runs; but
  -- the topic is not subscribed to, and UnsubscribeTopic does nothing.
  pub record Leaked (topic : Bytes) (handler : TopicHandler) (sub : Subscription) (n : Node net)
      (b : Both) : Type 0 where
    pub unsubscribed : b.unsubscriber ≡ ended (ok tt)
    pub subscribed : b.subscriber ≡ ended (ok tt)
    pub no_key : has_key topic b.node.subs ≡ false
    pub reading : b.node.readers ≡ (sub, handler) ∷ n.readers
    pub no_way_back : unsubscribe_topic net topic b.node ≡ (ok tt, b.node)

  gone :
      (topic : Bytes) (n : Node net)
      → lookup topic n.subs ≡ none
      → (has_key topic n.subs ≡ false) × (unsubscribe_topic net topic n ≡ (ok tt, n))
  unfolding unsubscribe_topic
  gone topic n e = (ground (arith, e), ground (arith, e))

  -- If UnsubscribeTopic has read and cancelled the subscription of a topic when SubscribeTopic of
  -- the same topic runs, in which the libraries subscribe and do not panic, and then goes on to
  -- delete: both return without an error, and the reader of the new subscription runs; but the
  -- topic is not subscribed to, and a further UnsubscribeTopic does nothing.
  pub overtaken-Leaked :
      (n : Node net) (topic : Bytes) (handler : TopicHandler) (v : TopicValidator)
      (old sub : Subscription)
      → lookup topic n.subs ≡ some old
      → (subscribe topic (cancel old n.world)).0 ≡ ok sub
      → (register_topic_validator topic v (subscribe topic (cancel old n.world)).1).0 ≢ panic
      → Leaked topic handler sub n (overtaken topic handler v n)
  unfolding overtaken alone part
  overtaken-Leaked n topic handler v old sub e s calm =
      let r = subscribe topic (cancel old n.world) in
      let w = register_topic_validator topic v r.1 in
      let last : Node net = record n {
        subs = delete topic (insert topic sub n.subs);
        readers = (sub, handler) ∷ n.readers;
        world = w.1;
      } in
      let none_left =
        gone topic last
          (lookup-delete topic topic (insert topic sub n.subs) ∙ rw (==_refl topic)) in
      elim (ending w.0) [
        | panics q ↦ absurd (calm q)
        | returns u q ↦
            rw (e, s, q)
              (record {
                unsubscribed = refl;
                subscribed = refl;
                no_key = none_left.0;
                reading = refl;
                no_way_back = none_left.1;
              })
        | fails err q ↦
            rw (e, s, q)
              (record {
                unsubscribed = refl;
                subscribed = refl;
                no_key = none_left.0;
                reading = refl;
                no_way_back = none_left.1;
              })
      ]
