-- ===== src/Text/Fuel.antt =====
-- `strings.Replace` in shardTopicToShardID: its fuel is enough.
use sharding_p2p_poc.Prelude.{
  ℕ, zero, suc, ◌≤◌, Bytes, nat_beq, ◌≡◌, refl, arith, length, [], ◌∷◌, some, Option-cases,
  Bool-cases, inl, inr,
}
use sharding_p2p_poc.Text.{remove_all, strip_prefix, collation_prefix, shard_topic_to_shard_id}

strip_prefix-length : (old s rest : Bytes) → strip_prefix old s ≡ some rest → length rest ≤ length s
strip_prefix-length [] s rest e = ground (arith, e)
strip_prefix-length (c ∷ old) [] rest e = absurd (ground (arith, e))
strip_prefix-length (c ∷ old) (b ∷ s) rest e = elim (Bool-cases (nat_beq c b)) [
  | inl on ↦ omega (arith, strip_prefix-length old s rest (rw on at e))
  | inr off ↦ absurd (ground (arith, off, e))
]

module _ (c : ℕ) (old : Bytes) where
  pub remove_all_fuel :
      (f g : ℕ) (s : Bytes)
      → length s ≤ f
      → length s ≤ g
      → remove_all f (c ∷ old) s ≡ remove_all g (c ∷ old) s
  unfolding remove_all
  remove_all_fuel zero zero s h k = refl
  remove_all_fuel zero (suc g) [] h k = refl
  remove_all_fuel zero (suc g) (b ∷ s) h k = absurd (omega arith)
  remove_all_fuel (suc f) zero [] h k = refl
  remove_all_fuel (suc f) zero (b ∷ s) h k = absurd (omega arith)
  remove_all_fuel (suc f) (suc g) [] h k = refl
  remove_all_fuel (suc f) (suc g) (b ∷ s) h k =
      let kept = remove_all_fuel f g s (omega arith) (omega arith) in
      elim (Bool-cases (nat_beq c b)) [
        | inr off ↦ ground (arith, off, kept)
        | inl on ↦ elim (Option-cases (strip_prefix old s)) [
          | inl absent ↦ ground (arith, on, absent, kept)
          | inr (rest, found) ↦
              let shorter = strip_prefix-length old s rest found in
              ground (
                arith,
                on,
                found,
                remove_all_fuel f g rest (omega (arith, shorter)) (omega (arith, shorter)),
              )
        ]
      ]

-- The loop of strings.Replace, on any fuel that is at least the length of the topic, gives what
-- shardTopicToShardID returns.
pub shard_topic_to_shard_id_fuel :
    (topic : Bytes) (fuel : ℕ)
    → length topic ≤ fuel
    → remove_all fuel collation_prefix topic ≡ shard_topic_to_shard_id topic
unfolding shard_topic_to_shard_id
shard_topic_to_shard_id_fuel topic fuel h =
    remove_all_fuel _ _ fuel (length topic) topic h (omega arith)
