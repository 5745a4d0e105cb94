-- ===== src/PrefTable/Store/Loads.antt =====
-- shardpreftable.go, lines 47 to 61: setShard as the reading of a byte and the writing of a byte.
use sharding_p2p_poc.Prelude.{
  ℕ, ◌<◌, ◌/◌, ℤ, pos, ◌≡◌, ◌≢◌, refl, ap, arith, length-set, set, get_elem?-set_ne, List, zero,
  suc, [], ◌∷◌,
}
use sharding_p2p_poc.Outcome.{ok, returns, fails, panics, ending, ◌>>=◌}
use sharding_p2p_poc.Shards.{ListeningShards, num_shards, set_shard}
use sharding_p2p_poc.Shards.View.{bit_index-valid}
use sharding_p2p_poc.PrefTable.Store.{loaded, with_byte}

-- setShard reads, and then writes.
pub set_shard-loaded :
    (ls : ListeningShards) (id : ℤ)
    → set_shard ls id ≡ (loaded ls id >>= λ r. ok (with_byte ls r.0 r.1))
unfolding set_shard loaded
set_shard-loaded ls id = ground arith

-- Where setShard returns, it has read a byte.
pub set_shard-loads :
    (ls l : ListeningShards) (id : ℤ)
    → set_shard ls id ≡ ok l
    → (r : ℕ × ℕ) × (loaded ls id ≡ ok r) × (l ≡ with_byte ls r.0 r.1)
set_shard-loads ls l id e = elim (ending (loaded ls id)) [
  | returns r q ↦ (r, q, ground (arith, e, set_shard-loaded ls id, q))
  | fails err q ↦ absurd (ground (arith, e, set_shard-loaded ls id, q))
  | panics q ↦ absurd (ground (arith, e, set_shard-loaded ls id, q))
]

-- The byte that is read for a shard in range
pub loaded-index :
    (ls : ListeningShards) (s k b : ℕ) → s < num_shards → loaded ls (pos s) ≡ ok (k, b) → k ≡ s / 8
unfolding loaded
loaded-index ls s k b h e = ground (arith, e, bit_index-valid s h)

-- The writing of another byte changes nothing of what is read.
pub loaded-with_byte :
    (ls : ListeningShards) (s k b : ℕ)
    → s < num_shards
    → k ≢ s / 8
    → loaded (with_byte ls k b) (pos s) ≡ loaded ls (pos s)
unfolding loaded
loaded-with_byte ls s k b h p = ground (
  arith,
  bit_index-valid s h,
  length-set ls.shard_bits k b,
  get_elem?-set_ne ls.shard_bits k (s / 8) b p,
)

-- Two writings of one place
pub set-set : {A : Type 0} → (xs : List A) (i : ℕ) (v w : A) → set (set xs i v) i w ≡ set xs i w
set-set [] i v w = refl
set-set (x ∷ xs) zero v w = refl
set-set (x ∷ xs) (suc i) v w = ap (λ l. x ∷ l) (set-set xs i v w)
