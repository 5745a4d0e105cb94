-- ===== src/Shards.antt =====
-- shardpreftable.go, lines 10 to 97: the bit string of the shards that a peer listens to.
-- A byte is a number below 256, and a shard ID is an `int64`, so it can be negative.
pub mod Bits
pub mod Bounds
pub mod View
use Prim.Native.Nat.{bit_and, bit_or}
use sharding_p2p_poc.Prelude.{
  ℕ, zero, suc, ◌+◌, ◌-◌, ◌/◌, ◌%◌, ◌^◌, ℤ, pos, negsuc, Bytes, Bool, true, false, not, List, [],
  ◌∷◌, ◌++◌, Option, none, some, leb, leb_ℤ, nat_beq, div_trunc, rem_trunc, to_byte, length,
  get_elem?, set, replicate, if◌then◌else◌,
}
use sharding_p2p_poc.Outcome.{
  Outcome, ok, fail, panic, invalid_shard_id, byte_index_out, ◌>>=◌, ◌>>◌, reject_if, ignoring,
}

abbrev pub num_shards : ℕ
num_shards = 100

abbrev pub byte_size : ℕ
byte_size = 8

pub record ListeningShards : Type 0 where
  pub shard_bits : Bytes

unfoldable pub new_listening_shards : ListeningShards
new_listening_shards = record { shard_bits = replicate (num_shards / 8 + 1) 0 }

-- The byte and the bit of a shard. There is no test against negative IDs.
unfoldable pub shard_id_to_bit_index : ℤ → Outcome (ℕ × ℕ)
shard_id_to_bit_index shard_id = do
  reject_if (leb_ℤ (pos num_shards) shard_id) (invalid_shard_id shard_id)
  ok (to_byte (div_trunc shard_id byte_size), to_byte (rem_trunc shard_id byte_size))

-- The byte `1 << bit`, which is 0 from bit 8 on.
abbrev pub bit_mask : ℕ → ℕ
bit_mask bit = 2 ^ bit % 256

-- An index expression: out of range it panics.
abbrev pub byte_at : Bytes → ℕ → Outcome ℕ
byte_at bytes i = elim (get_elem? bytes i) [ none ↦ panic | some b ↦ ok b ]

-- The common part of `setShard` and `unsetShard`: the checks, and the write of one byte.
abbrev update_with : (ℕ → ℕ → ℕ) → ListeningShards → Outcome (ℕ × ℕ) → Outcome ListeningShards
update_with f ls index = do
  (byte_index, bit_index) ← index
  reject_if (leb (length ls.shard_bits) byte_index)
      (byte_index_out byte_index (length ls.shard_bits))
  byte ← byte_at ls.shard_bits byte_index
  ok (record { shard_bits = set ls.shard_bits byte_index (f byte (bit_mask bit_index)) })

abbrev update_shard : (ℕ → ℕ → ℕ) → ListeningShards → ℤ → Outcome ListeningShards
update_shard f ls shard_id = update_with f ls (shard_id_to_bit_index shard_id)

abbrev pub clear_mask : ℕ → ℕ → ℕ
clear_mask byte mask = bit_and byte (255 - mask)

unfoldable pub unset_shard : ListeningShards → ℤ → Outcome ListeningShards
unset_shard = update_shard clear_mask

unfoldable pub set_shard : ListeningShards → ℤ → Outcome ListeningShards
set_shard = update_shard bit_or

abbrev test_bit : Bytes → Outcome (ℕ × ℕ) → Outcome Bool
test_bit bits (ok (byte_index, bit_index)) = do
  byte ← byte_at bits byte_index
  ok (not (nat_beq (bit_and byte (bit_mask bit_index)) 0))
test_bit bits (fail e) = ok false
test_bit bits panic = panic

unfoldable pub is_shard_set : ListeningShards → ℤ → Outcome Bool
is_shard_set ls shard_id = test_bit ls.shard_bits (shard_id_to_bit_index shard_id)

-- The loop of `getShards`, with the rounds that are left.
unfoldable pub get_shards_loop : ListeningShards → ℕ → ℕ → List ℤ → Outcome (List ℤ)
get_shards_loop ls zero shard_id shards = ok shards
get_shards_loop ls (suc left) shard_id shards = do
  listening ← is_shard_set ls (pos shard_id)
  get_shards_loop ls left (suc shard_id) (if listening then shards ++ pos shard_id ∷ [] else shards)

unfoldable pub get_shards : ListeningShards → Outcome (List ℤ)
unfolding get_shards_loop is_shard_set
get_shards ls = get_shards_loop ls num_shards 0 []

-- The errors of `setShard` are dropped.
unfoldable pub from_slice : ListeningShards → List ℤ → Outcome ListeningShards
from_slice ls [] = ok ls
from_slice ls (shard_id ∷ shards) = do
  ls' ← ignoring ls (set_shard ls shard_id)
  from_slice ls' shards

-- The bytes are taken as they are.
unfoldable pub from_bytes : ListeningShards → Bytes → ListeningShards
from_bytes ls bytes = record ls { shard_bits = bytes }

unfoldable pub to_bytes : ListeningShards → Bytes
to_bytes ls = ls.shard_bits
