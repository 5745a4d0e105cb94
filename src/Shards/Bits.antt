-- ===== src/Shards/Bits.antt =====
-- What the byte operations of `ListeningShards` do to each bit of a byte, checked at all bytes.
use Prim.Native.Nat.{bit_and, bit_or}
use sharding_p2p_poc.Prelude.{
  ℕ, zero, suc, ◌/◌, ◌%◌, ◌^◌, ◌<◌, Bool, true, false, not, ◌&&◌, ◌||◌, ◌≡◌, refl, arith, ltb,
  nat_beq, ltb→lt,
}
use sharding_p2p_poc.Shards.{bit_mask, clear_mask}

-- The bit of a byte by division.
abbrev pub bit_of : ℕ → ℕ → Bool
bit_of byte bit = nat_beq (byte / 2 ^ bit % 2) 1

all_below : ℕ → (ℕ → Bool) → Bool
all_below zero p = true
all_below (suc n) p = p n && all_below n p

all_below_sound : (n : ℕ) (p : ℕ → Bool) → all_below n p ≡ true → (x : ℕ) → x < n → p x ≡ true
unfolding all_below
all_below_sound zero p h x lt = absurd (omega arith)
all_below_sound (suc n) p h x lt =
    ground (arith, λ (q : all_below n p ≡ true). all_below_sound n p q x)

same : Bool → Bool → Bool
same true b = b
same false b = not b

same→eq : (a b : Bool) → same a b ≡ true → a ≡ b
unfolding same
same→eq a b h = ground arith

-- A test at each byte and each two bits.
every : (ℕ → ℕ → ℕ → Bool) → Bool
every p = all_below 256 λ byte. all_below 8 λ c. all_below 8 λ d. p byte c d

every_sound :
    (p : ℕ → ℕ → ℕ → Bool)
    → every p ≡ true
    → (byte c d : ℕ) → byte < 256
    → c < 8
    → d < 8
    → p byte c d ≡ true
unfolding every
every_sound p h byte c d hb hc hd =
    all_below_sound 8 _
      (all_below_sound 8 (λ c. all_below 8 λ d. p byte c d)
        (all_below_sound 256 (λ byte. all_below 8 λ c. all_below 8 λ d. p byte c d) h byte hb) c hc)
      d hd

abbrev or_test : ℕ → ℕ → ℕ → Bool
or_test byte c d =
    same (bit_of (bit_or byte (bit_mask c)) d) (nat_beq c d || bit_of byte d)
    && ltb (bit_or byte (bit_mask c)) 256

abbrev clear_test : ℕ → ℕ → ℕ → Bool
clear_test byte c d =
    same (bit_of (clear_mask byte (bit_mask c)) d) (not (nat_beq c d) && bit_of byte d)
    && ltb (clear_mask byte (bit_mask c)) 256

abbrev and_test : ℕ → ℕ → ℕ → Bool
and_test byte c d = same (not (nat_beq (bit_and byte (bit_mask c)) 0)) (bit_of byte c)

or_table : every or_test ≡ true
unfolding every all_below same
or_table = refl

clear_table : every clear_test ≡ true
unfolding every all_below same
clear_table = refl

and_table : every and_test ≡ true
unfolding every all_below same
and_table = refl

&&-left : (a b : Bool) → (a && b) ≡ true → a ≡ true
&&-left a b h = ground arith

&&-right : (a b : Bool) → (a && b) ≡ true → b ≡ true
&&-right a b h = ground arith

module _ (byte c d : ℕ) (hb : byte < 256) (hc : c < 8) (hd : d < 8) where
  pub bit_of-or : bit_of (bit_or byte (bit_mask c)) d ≡ (nat_beq c d || bit_of byte d)
  bit_of-or = same→eq _ _ (&&-left _ _ (every_sound or_test or_table byte c d hb hc hd))

  pub bit_of-clear : bit_of (clear_mask byte (bit_mask c)) d ≡ (not (nat_beq c d) && bit_of byte d)
  bit_of-clear = same→eq _ _ (&&-left _ _ (every_sound clear_test clear_table byte c d hb hc hd))

module _ (byte c : ℕ) (hb : byte < 256) (hc : c < 8) where
  pub bit_or-byte : bit_or byte (bit_mask c) < 256
  bit_or-byte =
      ltb→lt _ _ (&&-right _ _ (every_sound or_test or_table byte c 0 hb hc (omega arith)))

  pub clear-byte : clear_mask byte (bit_mask c) < 256
  clear-byte =
      ltb→lt _ _ (&&-right _ _ (every_sound clear_test clear_table byte c 0 hb hc (omega arith)))

  -- The test by a mask reads the bit.
  pub mask_test : not (nat_beq (bit_and byte (bit_mask c)) 0) ≡ bit_of byte c
  mask_test = same→eq _ _ (every_sound and_test and_table byte c 0 hb hc (omega arith))
