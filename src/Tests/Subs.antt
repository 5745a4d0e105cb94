-- ===== src/Tests/Subs.antt =====
-- shardmanager.go, lines 249 to 306: goroutines that subscribe and unsubscribe.
use sharding_p2p_poc.Prelude.{
  ℕ, zero, suc, ◌<◌, ◌==◌, Bytes, bytes_eq, bytes_beq, ◌≡◌, refl, arith, nat_beq, [], ◌∷◌, some,
}
use sharding_p2p_poc.Prelude.Assoc.{lookup, insert, has_key}
use sharding_p2p_poc.Outcome.{ok}
use sharding_p2p_poc.Network.{general_handler, general_validator}
use sharding_p2p_poc.State.{Node}
use sharding_p2p_poc.Manager.Subs.{
  Call, subscribing, unsubscribing, topic_of, ended, part, first_place,
}
use sharding_p2p_poc.Manager.Subs.Leak.{Leaked, overtaken, overtaken-Leaked}
use sharding_p2p_poc.Manager.Subs.Safety.{System, picked, Reach, start, pick, wanted, Reach-subs}
use sharding_p2p_poc.Fixtures.{network, node, alice, bob}

-- A node that is subscribed to the topic "b"
abbrev subscribed : Node network
subscribed = record node { subs = (bob, bob) ∷ [] }

bob_found : lookup bob subscribed.subs ≡ some bob
unfolding lookup bytes_beq
bob_found = refl

overtaken-Leaked_example :
    Leaked network bob general_handler bob subscribed
      (overtaken network bob general_handler general_validator subscribed)
overtaken-Leaked_example =
    overtaken-Leaked network subscribed bob general_handler general_validator bob bob bob_found refl
      (λ p. cc)

-- One call subscribes to the topic "a", the other leaves "b".
abbrev two_calls : ℕ → Call
two_calls zero = subscribing alice general_handler (some general_validator)
two_calls (suc i) = unsubscribing bob

abbrev turn : ℕ → System network → System network
turn = picked network 2 two_calls

abbrev both_done : System network
both_done = turn 0 (
    turn 1 (
      turn 0 (
        turn 1 (
          turn 0 (
            turn 1 (
              turn 0
                (record { node = subscribed; place = λ i. first_place network (two_calls i) })))))))

both_done-Reach : Reach network 2 two_calls subscribed both_done
both_done-Reach =
    pick
      (pick
        (pick
          (pick (pick (pick (pick start 0 (omega arith)) 1 (omega arith)) 0 (omega arith)) 1
            (omega arith))
          0 (omega arith))
        1 (omega arith))
      0 (omega arith)

own_topics :
    (i j : ℕ) → i < 2 → j < 2 → (topic_of (two_calls i) == topic_of (two_calls j)) ≡ nat_beq i j
unfolding bytes_beq
own_topics zero zero h k = refl
own_topics zero (suc zero) h k = refl
own_topics (suc zero) zero h k = refl
own_topics (suc zero) (suc zero) h k = refl
own_topics (suc (suc i)) j h k = absurd (omega arith)
own_topics i (suc (suc j)) h k = absurd (omega arith)

all_done : (i : ℕ) → i < 2 → both_done.place i ≡ ended (ok tt)
unfolding part lookup bytes_beq insert
all_done zero h = refl
all_done (suc zero) h = refl
all_done (suc (suc i)) h = absurd (omega arith)

Reach-subs_example :
    ((t : Bytes)
      → has_key t both_done.node.subs ≡ wanted network 2 two_calls 2 t (has_key t subscribed.subs))
    × (both_done.node.shard_pref_table ≡ subscribed.shard_pref_table)
Reach-subs_example = Reach-subs network 2 two_calls subscribed own_topics both_done-Reach all_done
