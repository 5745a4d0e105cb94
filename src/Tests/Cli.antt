-- ===== src/Tests/Cli.antt =====
-- cli.go: runs of the client.
use sharding_p2p_poc.Prelude.{◌≡◌, refl, codes, [], ◌∷◌, bytes_beq}
use sharding_p2p_poc.Outcome.{panic}
use sharding_p2p_poc.Cli.{run_client, do_sub_shard}
use sharding_p2p_poc.Fixtures.{codecs}

too_few_arguments : run_client codecs (codes "subshard" ∷ codes "3" ∷ []) ≡ panic
unfolding run_client do_sub_shard bytes_beq
too_few_arguments = refl
