-- ===== src/PrefTable/Store.antt =====
-- shardpreftable.go, lines 129 to 180, with the pointers: a map from peers to sets in a store. A call
-- of `AddPeerListeningShard` takes the lock to read the map and again to write it, and between them
-- `setShard` reads a byte and writes it without a lock; so it is four steps, and a step of one
-- goroutine may stand between those of another.
pub mod Loads
pub mod Refinement
pub mod Calls
pub mod Removal
pub mod Race
pub mod LostBit
pub mod Recorded
pub mod Steps
pub mod Concurrent
use Prim.Native.Nat.{bit_or}
use sharding_p2p_poc.Prelude.{
  leb, ℕ, ℤ, Bytes, bytes_eq, Bool, true, false, List, [], ◌∷◌, ◌++◌, Option, none, some, length,
  get_or, set,
}
use sharding_p2p_poc.Prelude.Assoc.{Assoc, lookup, insert}
use sharding_p2p_poc.Outcome.{Outcome, ok, fail, panic, byte_index_out, ◌>>=◌, ◌>>◌, reject_if}
use sharding_p2p_poc.Shards.{
  ListeningShards, new_listening_shards, is_shard_set, unset_shard, shard_id_to_bit_index, bit_mask,
  byte_at,
}

-- The sets by their addresses, and the map
pub record Store : Type 0 where
  pub cells : List ListeningShards
  pub shard_pref_map : Assoc Bytes ℕ

abbrev pub cell : List ListeningShards → ℕ → ListeningShards
cell cells p = get_or cells p new_listening_shards

-- The method `setShard` up to the byte that it reads: the index of the byte, and what it becomes.
unfoldable pub loaded : ListeningShards → ℤ → Outcome (ℕ × ℕ)
loaded ls shard_id = do
  (byte_index, bit_index) ← shard_id_to_bit_index shard_id
  reject_if (leb (length ls.shard_bits) byte_index)
      (byte_index_out byte_index (length ls.shard_bits))
  byte ← byte_at ls.shard_bits byte_index
  ok (byte_index, bit_or byte (bit_mask bit_index))

-- The same from there on: the byte is written.
abbrev pub with_byte : ListeningShards → ℕ → ℕ → ListeningShards
with_byte ls i byte = record { shard_bits = set ls.shard_bits i byte }

-- Where a goroutine stands in `AddPeerListeningShard`: it reads the map, reads a byte behind its
-- pointer, writes that byte, writes the map, or has returned.
pub data Adding : Type 0 where
  reading : Adding
  setting storing : (shard_pref : ℕ) → Adding
  writing : (shard_pref byte_index byte : ℕ) → Adding
  added : Outcome (Unit {0}) → Adding

abbrev pub pointer_or_new : Option ℕ → Store → Adding × Store
pointer_or_new none st =
    (setting (length st.cells), record st { cells = st.cells ++ new_listening_shards ∷ [] })
pointer_or_new (some p) st = (setting p, st)

abbrev pub after_load : ℕ → Outcome (ℕ × ℕ) → Adding
after_load p (ok r) = writing p r.0 r.1
after_load p (fail e) = added (fail e)
after_load p panic = added panic

unfoldable pub add_step : Bytes → ℤ → Adding → Store → Adding × Store
add_step peer_id shard_id reading st = pointer_or_new (lookup peer_id st.shard_pref_map) st
add_step peer_id shard_id (setting p) st = (after_load p (loaded (cell st.cells p) shard_id), st)
add_step peer_id shard_id (writing p i byte) st =
    (storing p, record st { cells = set st.cells p (with_byte (cell st.cells p) i byte) })
add_step peer_id shard_id (storing p) st =
    (added (ok tt), record st { shard_pref_map = insert peer_id p st.shard_pref_map })
add_step peer_id shard_id (added r) st = (added r, st)

-- A call that nobody interrupts
unfoldable pub add_alone : Bytes → ℤ → Store → Adding × Store
add_alone peer_id shard_id st =
    let read = add_step peer_id shard_id reading st in
    let loading = add_step peer_id shard_id read.0 read.1 in
    let written = add_step peer_id shard_id loading.0 loading.1 in
    add_step peer_id shard_id written.0 written.1

abbrev pub cleared : ℕ → Outcome ListeningShards → Store → Outcome (Unit {0}) × Store
cleared p (ok ls) st = (ok tt, record st { cells = set st.cells p ls })
cleared p (fail e) st = (fail e, st)
cleared p panic st = (panic, st)

abbrev pub clear_if : ℤ → ℕ → Outcome Bool → Store → Outcome (Unit {0}) × Store
clear_if shard_id p (ok false) st = (ok tt, st)
clear_if shard_id p (ok true) st = cleared p (unset_shard (cell st.cells p) shard_id) st
clear_if shard_id p (fail e) st = (fail e, st)
clear_if shard_id p panic st = (panic, st)

abbrev pub remove_at_pointer : ℤ → Option ℕ → Store → Outcome (Unit {0}) × Store
remove_at_pointer shard_id none st = (ok tt, st)
remove_at_pointer shard_id (some p) st =
    clear_if shard_id p (is_shard_set (cell st.cells p) shard_id) st

-- RemovePeerListeningShard, alone
unfoldable pub remove_alone : Bytes → ℤ → Store → Outcome (Unit {0}) × Store
remove_alone peer_id shard_id st = remove_at_pointer shard_id (lookup peer_id st.shard_pref_map) st

-- SetPeerListeningShard of a set that was just made
unfoldable pub set_alone : Bytes → ListeningShards → Store → Store
set_alone peer_id ls st = record {
  cells = st.cells ++ ls ∷ [];
  shard_pref_map = insert peer_id (length st.cells) st.shard_pref_map;
}
