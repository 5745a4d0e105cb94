-- ===== src/Manager/Subs.antt =====
-- shardmanager.go, lines 249 to 306: `SubscribeTopic` and `UnsubscribeTopic` as goroutines, with a step
-- for each part between which the lock of the subscriptions is free.
pub mod Leak
pub mod Topics
pub mod Safety
use sharding_p2p_poc.Prelude.{
  ℕ, zero, suc, Bytes, bytes_eq, Bool, true, false, ◌≡◌, refl, arith, List, ◌∷◌, Option, none, some,
  Option-cases, inl, inr,
}
use sharding_p2p_poc.Prelude.Assoc.{lookup, insert, delete}
use sharding_p2p_poc.Outcome.{Outcome, ok, fail, panic, Error, returns, fails, panics, ending}
use sharding_p2p_poc.Network.{Network, TopicHandler, TopicValidator}
use sharding_p2p_poc.State.{Node}
use sharding_p2p_poc.Manager.{register, subscribe_topic, unsubscribe_topic}

-- The method that a goroutine runs, with its arguments
pub data Call : Type 0 where
  subscribing : (topic : Bytes) (handler : TopicHandler) (validator : Option TopicValidator) → Call
  unsubscribing : (topic : Bytes) → Call

abbrev pub topic_of : Call → Bytes
topic_of (subscribing topic handler validator) = topic
topic_of (unsubscribing topic) = topic

module _ (net : Network) where
  open net use {World, Subscription, subscribe, cancel}

  -- The next part of a method, or how it ended
  pub data Place : Type 0 where
    calling looking deleting : Place
    storing registering starting cancelling : (sub : Subscription) → Place
    ended : Outcome (Unit {0}) → Place

  abbrev pub after_subscribe : Outcome Subscription → Place
  after_subscribe (ok sub) = storing sub
  after_subscribe (fail e) = ended (fail e)
  after_subscribe panic = ended panic

  abbrev pub after_register : Subscription → Outcome (Unit {0}) → Place
  after_register sub (ok u) = starting sub
  after_register sub (fail e) = ended (fail e)
  after_register sub panic = ended panic

  abbrev pub after_lookup : Option Subscription → Place
  after_lookup none = ended (ok tt)
  after_lookup (some sub) = cancelling sub

  -- One step
  unfoldable pub part : Call → Place → Node net → Place × Node net
  part (subscribing topic handler validator) calling n =
      let r = subscribe topic n.world in (after_subscribe r.0, record n { world = r.1 })
  part (subscribing topic handler validator) (storing sub) n =
      (registering sub, record n { subs = insert topic sub n.subs })
  part (subscribing topic handler validator) (registering sub) n =
      let r = register net topic validator n in (after_register sub r.0, r.1)
  part (subscribing topic handler validator) (starting sub) n =
      (ended (ok tt), record n { readers = (sub, handler) ∷ n.readers })
  part (unsubscribing topic) looking n = (after_lookup (lookup topic n.subs), n)
  part (unsubscribing topic) (cancelling sub) n =
      (deleting, record n { world = cancel sub n.world })
  part (unsubscribing topic) deleting n = (ended (ok tt), record n { subs = delete topic n.subs })
  part c p n = (p, n)

  -- A goroutine that runs on its own
  unfoldable pub alone : ℕ → Call → Place → Node net → Place × Node net
  alone zero c p n = (p, n)
  alone (suc k) c p n = let r = part c p n in alone k c r.0 r.1

  abbrev pub first_place : Call → Place
  first_place (subscribing topic handler validator) = calling
  first_place (unsubscribing topic) = looking
