-- ===== src/Shards/View.antt =====
-- `ListeningShards` as the set of shards whose bit is set, and what each operation does to that set.
pub mod Listing
pub mod Slices
use Prim.Native.Nat.{bit_or}
use sharding_p2p_poc.Prelude.{
  ℕ, zero, suc, ◌+◌, ◌/◌, ◌%◌, ◌^◌, ◌≤◌, ◌<◌, ℤ, pos, negsuc, Bytes, Bool, true, false, not, ◌&&◌,
  ◌||◌, ◌≡◌, ◌≢◌, refl, ap, arith, List, [], ◌∷◌, Option, none, some, nat_beq, nat_beq_iff, length,
  get_elem?, set, length-set, get_elem?-set_self, get_elem?-set_ne, get_elem?_in, All, replicate,
  inl, inr, ◌∙◌,
}
use native.Mathlib.Decide.{ℕ_discrete}
use sharding_p2p_poc.Outcome.{Outcome, ok, fail, panic, invalid_shard_id}
use sharding_p2p_poc.Shards.{
  ListeningShards, new_listening_shards, num_shards, shard_id_to_bit_index, bit_mask, clear_mask,
  is_shard_set, set_shard, unset_shard,
}
use sharding_p2p_poc.Shards.Bits.{
  bit_of, bit_of-or, bit_of-clear, bit_or-byte, clear-byte, mask_test,
}

abbrev pub IsByte : ℕ → Type 0
IsByte b = b < 256

-- There is a byte for each shard, and each number is a byte.
pub record IsWellFormed (ls : ListeningShards) : Type 0 where
  pub long : 13 ≤ length ls.shard_bits
  pub bytes : All IsByte ls.shard_bits

-- Bit n of the string: bit n % 8 of the byte n / 8.
abbrev pub byte_bit : Option ℕ → ℕ → Bool
byte_bit none bit = false
byte_bit (some b) bit = bit_of b bit

abbrev pub bit_at : Bytes → ℕ → Bool
bit_at bits n = byte_bit (get_elem? bits (n / 8)) (n % 8)

abbrev pub has_shard : ListeningShards → ℕ → Bool
has_shard ls n = bit_at ls.shard_bits n

pub byte_bound :
    (bits : Bytes) (i : ℕ) {b : ℕ} → All IsByte bits → get_elem? bits i ≡ some b → b < 256
byte_bound [] i h e = cc
byte_bound (x ∷ bits) zero h e = ground arith
byte_bound (x ∷ bits) (suc i) h e = byte_bound bits i h.1 e

pub set-IsByte : (bits : Bytes) (i v : ℕ) → All IsByte bits → v < 256 → All IsByte (set bits i v)
set-IsByte [] i v h hv = tt
set-IsByte (x ∷ bits) zero v h hv = (hv, h.1)
set-IsByte (x ∷ bits) (suc i) v h hv = (h.0, set-IsByte bits i v h.1 hv)

pub bit_index-valid : (n : ℕ) → n < num_shards → shard_id_to_bit_index (pos n) ≡ ok (n / 8, n % 8)
unfolding shard_id_to_bit_index
bit_index-valid n h = ground arith

pub bit_index-large :
    (n : ℕ) → num_shards ≤ n → shard_id_to_bit_index (pos n) ≡ fail (invalid_shard_id (pos n))
unfolding shard_id_to_bit_index
bit_index-large n h = ground arith

-- On a well-formed bit string the test of a shard below 100 returns the shard's bit, and does not
-- panic.
pub is_shard_set-valid :
    (ls : ListeningShards) (n : ℕ)
    → IsWellFormed ls
    → n < num_shards
    → is_shard_set ls (pos n) ≡ ok (has_shard ls n)
unfolding is_shard_set
is_shard_set-valid ls n w h =
    let (b, e) = get_elem?_in ls.shard_bits (n / 8) (omega arith) in
    ground (
      arith,
      bit_index-valid n h,
      e,
      mask_test b (n % 8) (byte_bound ls.shard_bits (n / 8) w.bytes e) (omega arith),
    )

-- What an operation on well-formed strings does: the outcome is a well-formed string, in which the
-- bit of each shard is given by `after`.
pub record Updates (ls : ListeningShards) (after : ℕ → Bool) (r : Outcome ListeningShards)
    : Type 0 where
  pub result : ListeningShards
  pub returned : r ≡ ok result
  pub well_formed : IsWellFormed result
  pub bits : (t : ℕ) → has_shard result t ≡ after t
  pub same_length : length result.shard_bits ≡ length ls.shard_bits

-- A write of one byte, seen bit by bit.
module _ (bits : Bytes) (s t v : ℕ) where
  bit_at-set_self :
      s / 8 ≡ t / 8 → s / 8 < length bits → bit_at (set bits (s / 8) v) t ≡ bit_of v (t % 8)
  bit_at-set_self p h = ground (arith, get_elem?-set_self bits (s / 8) v h)

  bit_at-set_ne : s / 8 ≢ t / 8 → bit_at (set bits (s / 8) v) t ≡ bit_at bits t
  bit_at-set_ne p = ground (arith, get_elem?-set_ne bits (s / 8) (t / 8) v p)

split_index : (s t : ℕ) → s / 8 ≡ t / 8 → nat_beq s t ≡ nat_beq (s % 8) (t % 8)
split_index s t p = ground arith

module _ (ls : ListeningShards) (s : ℕ) (w : IsWellFormed ls) (h : s < num_shards) where
  found : (b : ℕ) × (get_elem? ls.shard_bits (s / 8) ≡ some b)
  found = get_elem?_in ls.shard_bits (s / 8) (omega arith)

  old_byte : found.0 < 256
  old_byte = byte_bound ls.shard_bits (s / 8) w.bytes found.1

  written : ℕ → ListeningShards
  written v = record { shard_bits = set ls.shard_bits (s / 8) v }

  written-IsWellFormed : (v : ℕ) → v < 256 → IsWellFormed (written v)
  unfolding written
  written-IsWellFormed v hv = record {
    long = omega (arith, w.long, length-set ls.shard_bits (s / 8) v);
    bytes = set-IsByte ls.shard_bits (s / 8) v w.bytes hv;
  }

  set_bits :
      (t : ℕ)
      → bit_at (set ls.shard_bits (s / 8) (bit_or found.0 (bit_mask (s % 8)))) t
        ≡ (nat_beq s t || has_shard ls t)
  set_bits t = elim (ℕ_discrete (s / 8) (t / 8)) [
    | yes p ↦ ground (
      arith,
      bit_at-set_self ls.shard_bits s t (bit_or found.0 (bit_mask (s % 8))) p
          (omega (arith, w.long)),
      bit_of-or found.0 (s % 8) (t % 8) old_byte (omega arith) (omega arith),
      split_index s t p,
      found.1,
    )
    | no p ↦ ground (arith, bit_at-set_ne ls.shard_bits s t (bit_or found.0 (bit_mask (s % 8))) p)
  ]

  clear_bits :
      (t : ℕ)
      → bit_at (set ls.shard_bits (s / 8) (clear_mask found.0 (bit_mask (s % 8)))) t
        ≡ (not (nat_beq s t) && has_shard ls t)
  clear_bits t = elim (ℕ_discrete (s / 8) (t / 8)) [
    | yes p ↦ ground (
      arith,
      bit_at-set_self ls.shard_bits s t (clear_mask found.0 (bit_mask (s % 8))) p
          (omega (arith, w.long)),
      bit_of-clear found.0 (s % 8) (t % 8) old_byte (omega arith) (omega arith),
      split_index s t p,
      found.1,
    )
    | no p ↦
        ground (arith, bit_at-set_ne ls.shard_bits s t (clear_mask found.0 (bit_mask (s % 8))) p)
  ]

  -- On a well-formed bit string, setShard of a shard below 100 returns a well-formed string of the
  -- same length in which the bit of the shard is set and every other bit is as before.
  pub set_shard-Updates : Updates ls (λ t. nat_beq s t || has_shard ls t) (set_shard ls (pos s))
  unfolding set_shard
  set_shard-Updates = record {
    result = record { shard_bits = set ls.shard_bits (s / 8) (bit_or found.0 (bit_mask (s % 8))) };
    returned = ground (arith, bit_index-valid s h, found.1, w.long);
    well_formed =
        unfold written in
        written-IsWellFormed _ (bit_or-byte found.0 (s % 8) old_byte (omega arith));
    bits = set_bits;
    same_length = length-set ls.shard_bits (s / 8) _;
  }

  -- On a well-formed bit string, unsetShard of a shard below 100 returns a well-formed string of
  -- the same length in which the bit of the shard is clear and every other bit is as before.
  pub unset_shard-Updates :
      Updates ls (λ t. not (nat_beq s t) && has_shard ls t) (unset_shard ls (pos s))
  unfolding unset_shard
  unset_shard-Updates = record {
    result = record {
      shard_bits = set ls.shard_bits (s / 8) (clear_mask found.0 (bit_mask (s % 8)));
    };
    returned = ground (arith, bit_index-valid s h, found.1, w.long);
    well_formed =
        unfold written in
        written-IsWellFormed _ (clear-byte found.0 (s % 8) old_byte (omega arith));
    bits = clear_bits;
    same_length = length-set ls.shard_bits (s / 8) _;
  }

-- For an ID from 100 on, and any bit string, setShard and unsetShard return the error of an
-- invalid ID, and isShardSet returns false.
pub large_id-refused :
    (ls : ListeningShards) (n : ℕ)
    → num_shards ≤ n
    → (set_shard ls (pos n) ≡ fail (invalid_shard_id (pos n)))
      × (unset_shard ls (pos n) ≡ fail (invalid_shard_id (pos n)))
      × (is_shard_set ls (pos n) ≡ ok false)
unfolding set_shard unset_shard is_shard_set
large_id-refused ls n h = ground (arith, bit_index-large n h)

bit_of-zero : (n : ℕ) → bit_of 0 n ≡ false
bit_of-zero n = ground (arith, div_lem n)
  where
    div_lem : (n : ℕ) → 0 / 2 ^ n ≡ 0
    div_lem n = grind arith

byte_bit-replicate : (k i bit : ℕ) → byte_bit (get_elem? (replicate k 0) i) bit ≡ false
byte_bit-replicate zero i bit = refl
byte_bit-replicate (suc k) zero bit = bit_of-zero bit
byte_bit-replicate (suc k) (suc i) bit = byte_bit-replicate k i bit

pub new_listening_shards-IsWellFormed : IsWellFormed new_listening_shards
unfolding new_listening_shards
new_listening_shards-IsWellFormed = omega arith

pub has_shard-new : (n : ℕ) → has_shard new_listening_shards n ≡ false
unfolding new_listening_shards
has_shard-new n = byte_bit-replicate 13 (n / 8) (n % 8)
