-- ===== src/PrefTable/View.antt =====
-- What a table promises: a relation between peers and shards. The abstract operations on that
-- relation, and well-formed tables.
use sharding_p2p_poc.Prelude.{
  ℕ, Bytes, bytes_eq, Bool, false, not, ◌&&◌, ◌||◌, ◌≡◌, Option, none, some, ◌==◌, nat_beq,
}
use sharding_p2p_poc.Prelude.Assoc.{lookup, Distinct}
use sharding_p2p_poc.Outcome.{Outcome, ok}
use sharding_p2p_poc.Shards.{ListeningShards}
use sharding_p2p_poc.Shards.View.{has_shard, IsWellFormed}
use sharding_p2p_poc.PrefTable.{ShardPrefTable}

-- Who listens to what.
abbrev pub Relation : Type 0
Relation = Bytes → ℕ → Bool

abbrev pub join : Bytes → ℕ → Relation → Relation
join peer s r p t = (peer == p && nat_beq s t) || r p t

abbrev pub leave : Bytes → ℕ → Relation → Relation
leave peer s r p t = not (peer == p && nat_beq s t) && r p t

abbrev pub entry_bit : Option ListeningShards → ℕ → Bool
entry_bit none t = false
entry_bit (some ls) t = has_shard ls t

-- The relation that a table holds.
abbrev pub listens : ShardPrefTable → Relation
listens n p t = entry_bit (lookup p n.shard_pref_map) t

pub record IsTable (n : ShardPrefTable) : Type 0 where
  pub distinct : Distinct n.shard_pref_map
  pub entries :
      (p : Bytes) (ls : ListeningShards) → lookup p n.shard_pref_map ≡ some ls → IsWellFormed ls

-- The outcome is a well-formed table that holds a given relation.
pub record Holds (r : Outcome ShardPrefTable) (after : Relation) : Type 0 where
  pub result : ShardPrefTable
  pub returned : r ≡ ok result
  pub is_table : IsTable result
  pub relation : (p : Bytes) (t : ℕ) → listens result p t ≡ after p t
