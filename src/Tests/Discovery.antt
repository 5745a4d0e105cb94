-- ===== src/Tests/Discovery.antt =====
-- discovery.go: runs of the discovery service.
use sharding_p2p_poc.Prelude.{bytes_eq, codes, ◌≡◌, refl}
use sharding_p2p_poc.Outcome.{fail, syntax}
use sharding_p2p_poc.Text.{parse_int, parse_uint, scan_digits}
use sharding_p2p_poc.Discovery.{new_global_table}
use sharding_p2p_poc.Discovery.Laws.{ShardDiscovery, new_global_table-ShardDiscovery}
use sharding_p2p_poc.Fixtures.{network}

new_global_table-ShardDiscovery_example : ShardDiscovery network (new_global_table network)
new_global_table-ShardDiscovery_example = new_global_table-ShardDiscovery network

not_a_number : parse_int (codes "4x") ≡ fail (syntax (codes "4x"))
unfolding parse_int parse_uint scan_digits
not_a_number = refl
