-- ===== src/Shards/Bounds.antt =====
-- Shard IDs and byte strings outside what the bit string is made for. An `int64` can be negative,
-- and a string received from a peer can be short; neither is tested before the bytes are indexed.
use Prim.Native.Nat.{bit_or, bit_and}
use sharding_p2p_poc.Prelude.{
  ℕ, suc, ◌+◌, ◌-◌, ◌*◌, ◌/◌, ◌%◌, ◌≤◌, ◌<◌, ℤ, pos, negsuc, neg, Bytes, Bool, false, not, ◌≡◌, ◌≢◌,
  arith, length, get_elem?, get_elem?_in, get_elem?_out, leb, nat_beq, rem_trunc, div_trunc,
  to_byte, Bool-cases, Option-cases, leb_ℤ, ◌⊎◌, inl, inr,
}
use sharding_p2p_poc.Outcome.{ok, panic}
use sharding_p2p_poc.Shards.{
  ListeningShards, num_shards, shard_id_to_bit_index, is_shard_set, set_shard, unset_shard,
  update_shard, update_with, byte_at, test_bit, bit_mask, clear_mask, byte_size,
}

-- A shard in range is tested with a panic exactly when the string has no byte for it.
pub is_shard_set-short :
    (ls : ListeningShards) (n : ℕ)
    → n < num_shards
    → length ls.shard_bits ≤ n / 8
    → is_shard_set ls (pos n) ≡ panic
unfolding is_shard_set shard_id_to_bit_index
is_shard_set-short ls n h short = ground (arith, get_elem?_out ls.shard_bits (n / 8) short)

byte_at-in :
    (bits : Bytes) (i : ℕ) → leb (length bits) i ≡ false → (b : ℕ) × (byte_at bits i ≡ ok b)
byte_at-in bits i h = let (b, e) = get_elem?_in bits i (ground arith) in (b, ground (arith, e))

update_does_not_panic :
    (f : ℕ → ℕ → ℕ) (ls : ListeningShards) (shard_id : ℤ) → update_shard f ls shard_id ≢ panic
unfolding shard_id_to_bit_index
update_does_not_panic f ls shard_id =
    elim (Bool-cases (leb (length ls.shard_bits) (to_byte (div_trunc shard_id byte_size)))) [
      | inl out ↦ λ p. ground (arith, out)
      | inr fits ↦ let (b, e) = byte_at-in ls.shard_bits _ fits in λ p. ground (arith, fits, e)
    ]

-- Whatever the bit string and the ID, negative IDs and short strings included, setShard and
-- unsetShard do not panic.
pub updates_do_not_panic :
    (ls : ListeningShards) (shard_id : ℤ)
    → (set_shard ls shard_id ≢ panic) × (unset_shard ls shard_id ≢ panic)
unfolding set_shard unset_shard
updates_do_not_panic ls shard_id =
    (update_does_not_panic bit_or ls shard_id, update_does_not_panic clear_mask ls shard_id)

-- -(n + 1) / 8 as a byte, up to -1951.
negative_byte :
    (n : ℕ) → 7 ≤ n → n ≤ 1950 → to_byte (div_trunc (negsuc n) byte_size) ≡ 256 - (n + 1) / 8
negative_byte n lo hi =
    let e : (n + 1) / 8 ≡ suc ((n + 1) / 8 - 1) = omega arith in rw (e, neg, to_byte) (omega arith)

-- On a string of 13 bytes, the length that a new one has, isShardSet of any ID from -8 down to
-- -1951 panics.
pub is_shard_set-negative :
    (ls : ListeningShards) (n : ℕ)
    → length ls.shard_bits ≡ 13
    → 7 ≤ n
    → n ≤ 1950
    → is_shard_set ls (negsuc n) ≡ panic
unfolding is_shard_set shard_id_to_bit_index
is_shard_set-negative ls n len lo hi =
    ground
      (arith, negative_byte n lo hi, get_elem?_out ls.shard_bits (256 - (n + 1) / 8) (omega arith))

aliased_index :
    (k : ℕ)
    → k ≤ 12
    → shard_id_to_bit_index (negsuc (2047 - 8 * k)) ≡ shard_id_to_bit_index (pos (8 * k))
unfolding shard_id_to_bit_index
aliased_index k h =
    let e : (2047 - 8 * k + 1) / 8 ≡ suc (255 - k) = omega arith in
    let r : (2047 - 8 * k + 1) % 8 ≡ 0 = omega arith in ground (arith, e, r)

-- For k up to 12, setShard, unsetShard and isShardSet do with the ID 8 * k - 2048 what they do
-- with the shard 8 * k.
pub negative_alias :
    (ls : ListeningShards) (k : ℕ)
    → k ≤ 12
    → (set_shard ls (negsuc (2047 - 8 * k)) ≡ set_shard ls (pos (8 * k)))
      × (unset_shard ls (negsuc (2047 - 8 * k)) ≡ unset_shard ls (pos (8 * k)))
      × (is_shard_set ls (negsuc (2047 - 8 * k)) ≡ is_shard_set ls (pos (8 * k)))
unfolding set_shard unset_shard is_shard_set
negative_alias ls k h =
    let e = aliased_index k h in
    (
      λ i. update_with bit_or ls (e i),
      λ i. update_with clear_mask ls (e i),
      λ i. test_bit ls.shard_bits (e i),
    )

-- The test of a shard returns or panics; it has no error.
pub is_shard_set-no_error :
    (ls : ListeningShards) (shard_id : ℤ)
    → (is_shard_set ls shard_id ≡ panic) ⊎ ((b : Bool) × (is_shard_set ls shard_id ≡ ok b))
unfolding is_shard_set shard_id_to_bit_index
is_shard_set-no_error ls shard_id = elim (Bool-cases (leb_ℤ (pos num_shards) shard_id)) [
  | inl large ↦ inr (false, ground (arith, large))
  | inr small ↦
      elim (Option-cases (get_elem? ls.shard_bits (to_byte (div_trunc shard_id byte_size)))) [
        | inl e ↦ inl (ground (arith, small, e))
        | inr (b, e) ↦ inr (
          not (nat_beq (bit_and b (bit_mask (to_byte (rem_trunc shard_id byte_size)))) 0),
          ground (arith, small, e),
        )
      ]
]
