-- ===== src/Text/Topics.antt =====
-- utils.go, lines 66 to 69, and shardmanager.go, lines 59 to 61: a shard's topic and its ID as text.
use sharding_p2p_poc.Prelude.{
  ℕ, zero, suc, ◌+◌, ◌<◌, ℤ, pos, negsuc, IsInt64, Bytes, bytes_eq, ◌≡◌, ◌≢◌, refl, sym, ap, ◌∙◌,
  arith, [], ◌∷◌, ◌++◌, All,
}
use sharding_p2p_poc.Outcome.{ok}
use sharding_p2p_poc.Text.{
  remove_all, format_int, format_uint, parse_int, collation_prefix, get_collations_topic,
  shard_topic_to_shard_id, listening_shard_topic,
}
use sharding_p2p_poc.Text.Decimal.{IsDigit, format_uint-IsDigit, parse_int-format_int}

-- The prefix starts with an `s`, so it is not found in a text without one.
remove_all_absent :
    (fuel : ℕ) (s : Bytes) → All (λ c. c < b's') s → remove_all fuel collation_prefix s ≡ s
unfolding remove_all
remove_all_absent zero s h = refl
remove_all_absent (suc fuel) [] h = refl
remove_all_absent (suc fuel) (b ∷ s) h = ground (arith, remove_all_absent fuel s h.1)

All-weaken : (s : Bytes) → All IsDigit s → All (λ c. c < b's') s
All-weaken [] h = tt
All-weaken (c ∷ s) h = (omega arith, All-weaken s h.1)

format_int_low : (z : ℤ) → All (λ c. c < b's') (format_int z)
unfolding format_int
format_int_low (pos n) = All-weaken (format_uint n) (format_uint-IsDigit n)
format_int_low (negsuc n) =
    (omega arith, All-weaken (format_uint (n + 1)) (format_uint-IsDigit (n + 1)))

remove_all_prefix :
    (fuel : ℕ) (s : Bytes)
    → All (λ c. c < b's') s
    → remove_all (suc fuel) collation_prefix (collation_prefix ++ s) ≡ s
unfolding remove_all
remove_all_prefix fuel s h = remove_all_absent fuel s h

-- The topic of a shard is turned into the text of its ID.
pub shard_topic_to_shard_id_topic :
    (z : ℤ) → shard_topic_to_shard_id (get_collations_topic z) ≡ format_int z
unfolding shard_topic_to_shard_id get_collations_topic
shard_topic_to_shard_id_topic z = remove_all_prefix _ (format_int z) (format_int_low z)

-- A bare ID is left as it is.
pub shard_topic_to_shard_id_bare : (z : ℤ) → shard_topic_to_shard_id (format_int z) ≡ format_int z
unfolding shard_topic_to_shard_id
shard_topic_to_shard_id_bare z = remove_all_absent _ (format_int z) (format_int_low z)

-- For each int64, the ID is parsed back from the shard's topic and from the ID's bare text, after
-- shardTopicToShardID.
pub parse_int-topic :
    (z : ℤ)
    → IsInt64 z
    → (parse_int (shard_topic_to_shard_id (get_collations_topic z)) ≡ ok z)
      × (parse_int (shard_topic_to_shard_id (format_int z)) ≡ ok z)
parse_int-topic z h =
    rw (shard_topic_to_shard_id_topic z, shard_topic_to_shard_id_bare z)
      (parse_int-format_int z h, parse_int-format_int z h)

-- Two int64 IDs with the same collation topic are equal.
pub get_collations_topic_injective :
    (a b : ℤ) → IsInt64 a → IsInt64 b → get_collations_topic a ≡ get_collations_topic b → a ≡ b
get_collations_topic_injective a b ha hb e = ok_injective (
    (sym (parse_int-topic a ha).0 ∙ ap (λ t. parse_int (shard_topic_to_shard_id t)) e)
    ∙ (parse_int-topic b hb).0)
  where
    ok_injective : {x y : ℤ} → ok x ≡ ok y → x ≡ y
    ok_injective p = cc

pub listening_shard_topic-ne : (z : ℤ) → get_collations_topic z ≢ listening_shard_topic
unfolding get_collations_topic
listening_shard_topic-ne z e = cc
