-- ===== src/Tests/Bootstrap.antt =====
-- node.go, lines 56 to 90: a run of starting and stopping.
use sharding_p2p_poc.Prelude.{◌≡◌, ◌↔◌, true, refl, [], ◌∷◌}
use sharding_p2p_poc.Outcome.{ok}
use sharding_p2p_poc.Bootstrap.{start_bootstrapping, bootstrap_connect}
use sharding_p2p_poc.Bootstrap.Dials.{one_connects, bootstrap_connect_iff}
use sharding_p2p_poc.Bootstrap.Lifecycle.{Starts, start_bootstrapping-Starts}
use sharding_p2p_poc.Fixtures.{network, node, alice_info}

start_bootstrapping-Starts_example :
    Starts network (alice_info ∷ []) node (start_bootstrapping network (alice_info ∷ []) node)
start_bootstrapping-Starts_example = start_bootstrapping-Starts network (alice_info ∷ []) node refl

bootstrap_connect_iff_example :
    ((bootstrap_connect network (alice_info ∷ []) node).0 ≡ ok tt)
    ↔ (one_connects network (alice_info ∷ []) 0 ≡ true)
bootstrap_connect_iff_example = bootstrap_connect_iff network (λ p w q. cc) (alice_info ∷ []) node
