-- ===== src/Swarm/Announces.antt =====
-- discovery.go, lines 31 to 57: what an announcement does to the table, and the bytes that it sends.
use sharding_p2p_poc.Prelude.{ℕ, ◌<◌, pos, Bytes, bytes_eq, ◌≡◌, subst, sym, ◌∙◌, arith}
use sharding_p2p_poc.Outcome.{ok, returns, fails, panics, ending}
use sharding_p2p_poc.Text.{format_int, listening_shard_topic}
use sharding_p2p_poc.Shards.{num_shards, to_bytes}
use sharding_p2p_poc.Shards.View.{IsWellFormed, bit_at}
use sharding_p2p_poc.PrefTable.{ShardPrefTable, entry_or_new, get_peer_listening_shard}
use sharding_p2p_poc.PrefTable.View.{IsTable, listens}
use sharding_p2p_poc.PrefTable.Ops.{
  get_peer_listening_shard_lem, entry_or_new-bits, entry_or_new-IsWellFormed,
}
use sharding_p2p_poc.Network.{Network}
use sharding_p2p_poc.State.{Node, external}
use sharding_p2p_poc.Discovery.{global_advertise, toggle}
use sharding_p2p_poc.Discovery.Advertise.{toggled, toggle-Holds, small_int64}
use sharding_p2p_poc.Swarm.{announcement}

-- What an announcement of a shard in range does: it is the node's toggled preference.
pub record Announces (host_id : Bytes) (table : ShardPrefTable) (s : ℕ) : Type 0 where
  pub after : ShardPrefTable
  pub bytes : Bytes
  pub returned : announcement host_id table (pos s) ≡ ok (after, bytes)
  pub is_table : IsTable after
  pub relation : (p : Bytes) (t : ℕ) → listens after p t ≡ toggled host_id s (listens table) p t
  pub well_formed : IsWellFormed (record { shard_bits = bytes })
  pub own_bits : (t : ℕ) → bit_at bytes t ≡ listens after host_id t

pub announcement-Announces :
    (host_id : Bytes) (table : ShardPrefTable) (s : ℕ)
    → IsTable table
    → s < num_shards
    → Announces host_id table s
unfolding announcement to_bytes
announcement-Announces host_id table s w h =
    let t = toggle-Holds host_id table s w h in
    record {
      after = t.result;
      bytes = (entry_or_new t.result host_id).shard_bits;
      returned = rw (t.returned, get_peer_listening_shard_lem t.result host_id);
      is_table = t.is_table;
      relation = t.relation;
      well_formed = entry_or_new-IsWellFormed t.result host_id t.is_table;
      own_bits = entry_or_new-bits t.result host_id t.is_table;
    }

-- `Advertise` of a node makes the announcement, keeps its table and publishes its bytes.
pub global_advertise-announcement :
    (net : Network) (n : Node net) (s : ℕ) (t : ShardPrefTable) (bytes : Bytes)
    → s < num_shards
    → announcement net.host_id n.shard_pref_table (pos s) ≡ ok (t, bytes)
    → global_advertise net (format_int (pos s)) n
      ≡ external net (net.publish listening_shard_topic bytes) (record n { shard_pref_table = t })
unfolding global_advertise announcement
global_advertise-announcement net n s t bytes h e =
    elim (ending (toggle net.host_id n.shard_pref_table (pos s))) [
      | fails err q ↦ absurd (ground (arith, e, q))
      | panics q ↦ absurd (ground (arith, e, q))
      | returns t' q ↦ elim (ending (get_peer_listening_shard t' net.host_id)) [
        | fails err r ↦ absurd (ground (arith, e, q, r))
        | panics r ↦ absurd (ground (arith, e, q, r))
        | returns ls r ↦ rw (small_int64 net s h, q, r) (ground (arith, e, q, r))
      ]
    ]

-- The bytes of a set of shards
abbrev pub WellFormedBytes : Bytes → Type 0
WellFormedBytes bytes = IsWellFormed (record { shard_bits = bytes })

-- What a step's announcement has done.
pub announced_facts :
    (host_id : Bytes) (table : ShardPrefTable) (s : ℕ) (t : ShardPrefTable) (bytes : Bytes)
    → IsTable table
    → s < num_shards
    → announcement host_id table (pos s) ≡ ok (t, bytes)
    → IsTable t
      × ((p : Bytes) (k : ℕ) → listens t p k ≡ toggled host_id s (listens table) p k)
      × WellFormedBytes bytes
      × ((k : ℕ) → bit_at bytes k ≡ listens t host_id k)
announced_facts host_id table s t bytes w h e =
    let a = announcement-Announces host_id table s w h in
    subst
      (λ (r : ShardPrefTable × Bytes).
        IsTable r.0
        × ((p : Bytes) (k : ℕ) → listens r.0 p k ≡ toggled host_id s (listens table) p k)
        × WellFormedBytes r.1
        × ((k : ℕ) → bit_at r.1 k ≡ listens r.0 host_id k))
      (ok_injective (sym a.returned ∙ e)) (a.is_table, a.relation, a.well_formed, a.own_bits)
  where
    ok_injective : {x y : ShardPrefTable × Bytes} → ok x ≡ ok y → x ≡ y
    ok_injective q = cc
