-- ===== src/Text.antt =====
-- What the program uses of Go's `strconv` and `strings`, on byte strings, and the topic names of
-- shardmanager.go, line 36 and lines 59 to 61, and of utils.go, lines 66 to 69.
pub mod Decimal
pub mod Topics
pub mod Fuel
use sharding_p2p_poc.Prelude.{
  ℕ, zero, suc, ◌+◌, ◌-◌, ◌*◌, ◌/◌, ◌%◌, ◌^◌, ℤ, pos, negsuc, neg, Bytes, bytes_eq, codes, Bool,
  true, false, ◌||◌, ◌&&◌, List, [], ◌∷◌, ◌++◌, Option, none, some, ltb, leb, nat_beq, length,
  if◌then◌else◌,
}
use sharding_p2p_poc.Outcome.{Outcome, ok, fail, syntax, range, ◌>>=◌}

-- The decimal digits of a positive number in front of `out`; the number itself is fuel enough.
unfoldable pub digits_loop : ℕ → ℕ → Bytes → Bytes
digits_loop zero n out = out
digits_loop (suc fuel) n out =
    let rest = digits_loop fuel (n / 10) ((b'0' + n % 10) ∷ out) in
    if nat_beq n 0 then out else rest

unfoldable pub format_uint : ℕ → Bytes
format_uint n = if nat_beq n 0 then b'0' ∷ [] else digits_loop n n []

-- strconv.FormatInt(z, 10), and "%d" of fmt.Sprintf
unfoldable pub format_int : ℤ → Bytes
format_int (pos n) = format_uint n
format_int (negsuc n) = b'-' ∷ format_uint (n + 1)

-- The digits of `text`, which an error names.
unfoldable pub scan_digits : Bytes → Bytes → ℕ → Outcome ℕ
scan_digits text [] n = ok n
scan_digits text (c ∷ rest) n =
    if ltb c b'0' || ltb b'9' c
    then fail (syntax text)
    else if ltb (2 ^ 64 - 1) (n * 10 + (c - b'0'))
    then fail (range text)
    else scan_digits text rest (n * 10 + (c - b'0'))

-- strconv.ParseUint(s, 10, 64)
unfoldable pub parse_uint : Bytes → Outcome ℕ
parse_uint [] = fail (syntax [])
parse_uint (c ∷ rest) = scan_digits (c ∷ rest) (c ∷ rest) 0

-- The range test of ParseInt on the magnitude.
abbrev signed : Bytes → Bool → Outcome ℕ → Outcome ℤ
signed text negative (ok n) =
    if negative
    then (if ltb (2 ^ 63) n then fail (range text) else ok (neg n))
    else (if leb (2 ^ 63) n then fail (range text) else ok (pos n))
signed text negative (fail (range t)) = fail (range text)
signed text negative (fail e) = fail (syntax text)
signed text negative Outcome.panic = Outcome.panic

-- strconv.ParseInt(s, 10, 64), and strconv.Atoi on a 64-bit platform
unfoldable pub parse_int : Bytes → Outcome ℤ
parse_int [] = fail (syntax [])
parse_int (c ∷ rest) =
    if nat_beq c b'-'
    then signed (c ∷ rest) true (parse_uint rest)
    else if nat_beq c b'+'
    then signed (c ∷ rest) false (parse_uint rest)
    else signed (c ∷ rest) false (parse_uint (c ∷ rest))

abbrev strip_prefix : Bytes → Bytes → Option Bytes
strip_prefix [] s = some s
strip_prefix (c ∷ cs) [] = none
strip_prefix (c ∷ cs) (b ∷ s) = if nat_beq c b then strip_prefix cs s else none

-- strings.Replace(s, old, "", -1) for a text `old` that is not empty; the length of s is fuel enough.
unfoldable pub remove_all : ℕ → Bytes → Bytes → Bytes
remove_all zero old s = s
remove_all (suc fuel) old [] = []
remove_all (suc fuel) old (b ∷ s) = elim (strip_prefix old (b ∷ s)) [
  | some rest ↦ remove_all fuel old rest
  | none ↦ b ∷ remove_all fuel old s
]

-- strings.Split(s, sep) for a separator of one byte
unfoldable pub split_loop : ℕ → Bytes → Bytes → List Bytes
split_loop sep [] part = part ∷ []
split_loop sep (b ∷ s) part =
    if nat_beq b sep then part ∷ split_loop sep s [] else split_loop sep s (part ++ b ∷ [])

unfoldable pub split : Bytes → ℕ → List Bytes
unfolding split_loop
split s sep = split_loop sep s []

-- collationTopicFmt[0:end], in front of "%d"
abbrev pub collation_prefix : Bytes
collation_prefix = codes "shardCollations_"

abbrev pub listening_shard_topic : Bytes
listening_shard_topic = codes "listeningShard"

unfoldable pub get_collations_topic : ℤ → Bytes
get_collations_topic shard_id = collation_prefix ++ format_int shard_id

unfoldable pub shard_topic_to_shard_id : Bytes → Bytes
shard_topic_to_shard_id topic = remove_all (length topic) collation_prefix topic
