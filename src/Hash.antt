-- ===== src/Hash.antt =====
-- utils.go, lines 14 to 25, and shardmanager.go, lines 49 to 57: the hash of a message.
use sharding_p2p_poc.Prelude.{Bytes, ◌≡◌, sym, ap, ◌∙◌, arith}
use sharding_p2p_poc.Outcome.{Outcome, ok, ◌>>=◌, returns, fails, panics, ending}
use sharding_p2p_poc.Messages.{Codec, Collation, RoundTrips}

-- The hash of sha3, with the outcome of its `Write`, and b58.Encode
module _ (sum : Bytes → Outcome Bytes) (encode : Bytes → Bytes) where
  unfoldable pub keccak : {A : Type 0} → Codec A → A → Outcome Bytes
  keccak codec msg = do data_in_bytes ← codec.marshal msg; sum data_in_bytes

  unfoldable pub get_collation_hash : Codec Collation → Collation → Outcome Bytes
  get_collation_hash codec msg = do hash_bytes ← keccak codec msg; ok (encode hash_bytes)

  -- No two inputs have one hash, and no two hashes one text.
  pub record NoCollision : Type 0 where
    pub sums : (a b h : Bytes) → sum a ≡ ok h → sum b ≡ ok h → a ≡ b
    pub texts : (a b : Bytes) → encode a ≡ encode b → a ≡ b

  -- What was hashed
  hashed :
      (codec : Codec Collation) (c : Collation) (text : Bytes)
      → get_collation_hash codec c ≡ ok text
      → (bytes : Bytes) × (hash : Bytes) × (codec.marshal c ≡ ok bytes)
        × (sum bytes ≡ ok hash)
        × (encode hash ≡ text)
  unfolding get_collation_hash keccak
  hashed codec c text e = elim (ending (codec.marshal c)) [
    | fails err m ↦ absurd (ground (arith, e, m))
    | panics m ↦ absurd (ground (arith, e, m))
    | returns bytes m ↦ elim (ending (sum bytes)) [
      | fails err s ↦ absurd (ground (arith, e, m, s))
      | panics s ↦ absurd (ground (arith, e, m, s))
      | returns hash s ↦ (bytes, hash, m, s, ground (arith, e, m, s))
    ]
  ]

  returned : {x y : Collation} → ok x ≡ ok y → x ≡ y
  returned p = cc

  -- Where hashes do not collide and the codec round-trips, two collations with one hash are equal.
  pub get_collation_hash_injective :
      NoCollision
      → (codec : Codec Collation) → RoundTrips codec
      → (c d : Collation) (text : Bytes) → get_collation_hash codec c ≡ ok text
      → get_collation_hash codec d ≡ ok text
      → c ≡ d
  get_collation_hash_injective laws codec trips c d text p q =
      let (bytes, hash, m, s, e) = hashed codec c text p in
      let (bytes', hash', m', s', e') = hashed codec d text q in
      let same_hash = laws.texts hash hash' (e ∙ sym e') in
      let same_bytes = laws.sums bytes bytes' hash' (s ∙ ap ok same_hash) s' in
      returned (sym (trips c bytes m) ∙ ap codec.unmarshal same_bytes ∙ trips d bytes' m')
