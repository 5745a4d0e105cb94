-- ===== src/Discovery/Advertise.antt =====
-- discovery.go, lines 32 to 57: `Advertise`, by what it does to the relation of peers and shards.
use sharding_p2p_poc.Prelude.{
  ℕ, ◌≤◌, ◌<◌, pos, Bytes, bytes_eq, ◌≡◌, arith, inl, inr, Bool-cases, if◌then◌else◌, IsInt64,
}
use sharding_p2p_poc.Outcome.{ok, fail, invalid_shard_id}
use sharding_p2p_poc.Text.{format_int, parse_int, listening_shard_topic}
use sharding_p2p_poc.Text.Decimal.{parse_int-format_int}
use sharding_p2p_poc.Shards.{num_shards, to_bytes}
use sharding_p2p_poc.Shards.View.{bit_at}
use sharding_p2p_poc.PrefTable.{ShardPrefTable, entry_or_new}
use sharding_p2p_poc.PrefTable.View.{Relation, join, leave, listens, IsTable, Holds}
use sharding_p2p_poc.PrefTable.Ops.{
  add_peer_listening_shard-Holds, remove_peer_listening_shard-Holds, is_peer_listening_shard_lem,
  add_peer_listening_shard-large, get_peer_listening_shard_lem, entry_or_new-bits,
  is_peer_listening_shard-large,
}
use sharding_p2p_poc.Network.{Network}
use sharding_p2p_poc.State.{Node, external}
use sharding_p2p_poc.Discovery.{toggle, global_advertise}

-- A member leaves, any other peer joins.
abbrev pub toggled : Bytes → ℕ → Relation → Relation
toggled peer s r = if r peer s then leave peer s r else join peer s r

pub toggle-Holds :
    (host_id : Bytes) (table : ShardPrefTable) (s : ℕ)
    → IsTable table
    → s < num_shards
    → Holds (toggle host_id table (pos s)) (toggled host_id s (listens table))
unfolding toggle
toggle-Holds host_id table s w h = elim (Bool-cases (listens table host_id s)) [
  | inl on ↦
      rw (is_peer_listening_shard_lem table host_id w s h, on)
        (remove_peer_listening_shard-Holds table host_id w s h)
  | inr off ↦
      rw (is_peer_listening_shard_lem table host_id w s h, off)
        (add_peer_listening_shard-Holds table host_id w s h)
]

module _ (net : Network) where
  open net use {World, host_id, publish}

  -- What a call with a shard in range does: the table is toggled first, and the call then ends as
  -- the announcement of the host's bits does, in the world that this leaves.
  pub record Advertised (n : Node net) (s : ℕ) : Type 0 where
    pub table : ShardPrefTable
    pub announced : Bytes
    pub run :
        global_advertise net (format_int (pos s)) n
        ≡ external net
            (publish listening_shard_topic announced)
            (record n { shard_pref_table = table })
    pub is_table : IsTable table
    pub relation :
        (p : Bytes) (t : ℕ) → listens table p t ≡ toggled host_id s (listens n.shard_pref_table) p t
    pub own_bits : (t : ℕ) → bit_at announced t ≡ listens table host_id t

  pub small_int64 : (s : ℕ) → s < num_shards → parse_int (format_int (pos s)) ≡ ok (pos s)
  small_int64 s h = parse_int-format_int (pos s) (omega arith)

  -- On a well-formed table, for a shard below 100, Advertise toggles the host's preference for the
  -- shard, stores the new table, which is well formed and differs in that pair only, and publishes
  -- a bit string that has exactly the shards of the host in the new table; its outcome is that of
  -- the publication.
  pub global_advertise_lem :
      (n : Node net) (s : ℕ) → IsTable n.shard_pref_table → s < num_shards → Advertised n s
  unfolding global_advertise to_bytes
  global_advertise_lem n s w h =
      let t = toggle-Holds host_id n.shard_pref_table s w h in
      record {
        table = t.result;
        announced = (entry_or_new t.result host_id).shard_bits;
        run = rw (small_int64 s h, t.returned, get_peer_listening_shard_lem t.result host_id);
        is_table = t.is_table;
        relation = t.relation;
        own_bits = entry_or_new-bits t.result host_id t.is_table;
      }

  -- A shard from 100 on is refused, and nothing changes.
  pub global_advertise-large :
      (n : Node net) (s : ℕ)
      → IsInt64 (pos s)
      → num_shards ≤ s
      → global_advertise net (format_int (pos s)) n ≡ (fail (invalid_shard_id (pos s)), n)
  unfolding global_advertise toggle
  global_advertise-large n s i h = rw (
    parse_int-format_int (pos s) i,
    is_peer_listening_shard-large n.shard_pref_table host_id s h,
    add_peer_listening_shard-large n.shard_pref_table host_id s h,
  )
