-- ===== src/Outcome.antt =====
-- How a Go call ends: it returns, returns an error value, or ends the process, by a panic or by
-- `logger.Fatal`. A caller that hands an error on is a `do` block; one that handles it matches on
-- the outcome. No code of the program recovers from a panic, so it goes through both.
use sharding_p2p_poc.Prelude.{ℕ, ℤ, Bytes, ◌≡◌, refl, Bool, true, false}
use Prim.Native.String.{String}

pub data Error : Type 0 where
  -- "Invalid shardID: %v"
  invalid_shard_id : ℤ → Error
  -- "(byteIndex=%v) >= (len(shardBits)=%v)"
  byte_index_out : ℕ → ℕ → Error
  -- strconv's ErrSyntax and ErrRange
  syntax range : Bytes → Error
  -- an error that a library returns
  foreign : ℕ → Error
  -- errors.New, and fmt.Errorf of a text without another error
  message : String → Error
  -- fmt.Errorf of a text and an error
  wrapped : String → Error → Error

pub data Outcome {ℓ} (A : Type ℓ) : Type ℓ where
  ok : A → Outcome A
  fail : Error → Outcome A
  panic : Outcome A

infixl 5 ◌>>=◌ ◌>>◌
abbrev pub ◌>>=◌ {ℓ κ} : {A : Type ℓ} {B : Type κ} → Outcome A → (A → Outcome B) → Outcome B
ok a >>= f = f a
fail e >>= f = fail e
panic >>= f = panic

abbrev pub ◌>>◌ {ℓ} : {B : Type ℓ} → Outcome (Unit {0}) → Outcome B → Outcome B
m >> k = m >>= λ _. k

-- `if cond { return err }`
abbrev pub reject_if : Bool → Error → Outcome (Unit {0})
reject_if true e = fail e
reject_if false e = ok tt

-- `if err != nil { return fmt.Errorf(text, err) }`
abbrev pub wrap {ℓ} : {A : Type ℓ} → (Error → Error) → Outcome A → Outcome A
wrap f (ok a) = ok a
wrap f (fail e) = fail (f e)
wrap f panic = panic

-- The call is made for its effect and its error is dropped.
abbrev pub ignoring {ℓ} : {A : Type ℓ} → A → Outcome A → Outcome A
ignoring old (ok a) = ok a
ignoring old (fail e) = ok old
ignoring old panic = panic

-- To split on a computed outcome and keep the equation.
pub data Ending {ℓ} {A : Type ℓ} (r : Outcome A) : Type ℓ where
  returns : (a : A) → r ≡ ok a → Ending r
  fails : (e : Error) → r ≡ fail e → Ending r
  panics : r ≡ panic → Ending r

pub ending {ℓ} : {A : Type ℓ} (r : Outcome A) → Ending r
ending (ok a) = returns a refl
ending (fail e) = fails e refl
ending panic = panics refl
