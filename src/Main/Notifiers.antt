-- ===== src/Main/Notifiers.antt =====
-- main.go, lines 80 to 81 and 153 to 161: which event notifier a server uses.
use sharding_p2p_poc.Prelude.{
  ℕ, ℤ, pos, negsuc, int_eq, int_beq_iff, get_elem?, some, Bytes, bytes_eq, bytes_beq_iff, nat_beq,
  codes, ◌==◌, false, ◌≡◌, refl, sym, ap, ◌∙◌, arith, [], ◌∷◌, ◌++◌, All, IsInt64, if◌then◌else◌,
  Bool-cases, inl, inr,
}
use mathlib.Core.List.{append_assoc, append-nil}
use sharding_p2p_poc.Outcome.{ok}
use sharding_p2p_poc.Text.{format_int, format_uint, parse_int, split, split_loop}
use sharding_p2p_poc.Text.Decimal.{IsDigit, format_uint-IsDigit, parse_int-format_int}
use sharding_p2p_poc.Messages.{Codecs}
use sharding_p2p_poc.Network.{Network}
use sharding_p2p_poc.Notifier.{mock_event_notifier}
use sharding_p2p_poc.Cli.{or_fatal}
use sharding_p2p_poc.Main.{Libraries, address, choose_notifier, new_rpc_event_notifier}

-- A text without the separator is one part.
abbrev pub Without : ℕ → Bytes → Type 0
Without sep s = All (λ c. nat_beq c sep ≡ false) s

split_loop-first :
    (sep : ℕ) (a rest part : Bytes)
    → Without sep a
    → split_loop sep (a ++ sep ∷ rest) part ≡ (part ++ a) ∷ split_loop sep rest []
unfolding split_loop
split_loop-first sep [] rest part h = ground (arith, append-nil part)
split_loop-first sep (c ∷ a) rest part h =
    rw h.0 (split_loop-first sep a rest (part ++ c ∷ []) h.1 ∙ rw (append_assoc part (c ∷ []) a))

split_loop_last :
    (sep : ℕ) (a part : Bytes) → Without sep a → split_loop sep a part ≡ (part ++ a) ∷ []
unfolding split_loop
split_loop_last sep [] part h = rw (append-nil part)
split_loop_last sep (c ∷ a) part h =
    rw h.0 (split_loop_last sep a (part ++ c ∷ []) h.1 ∙ rw (append_assoc part (c ∷ []) a))

digits-Without : (s : Bytes) → All IsDigit s → Without b':' s
digits-Without [] h = tt
digits-Without (c ∷ s) h = (ground arith, digits-Without s h.1)

format_int-Without : (z : ℤ) → Without b':' (format_int z)
unfolding format_int
format_int-Without (pos n) = digits-Without (format_uint n) (format_uint-IsDigit n)
format_int-Without (negsuc n) = (refl, digits-Without _ (format_uint-IsDigit _))

same_int : (a b : ℤ) → ok a ≡ ok b → a ≡ b
same_int a b p = cc

zero_text : format_int (pos 0) ≡ codes "0"
unfolding format_int format_uint
zero_text = refl

-- Only zero is printed as 0.
is_zero_text : (port : ℤ) → IsInt64 port → (format_int port == codes "0") ≡ (port == pos 0)
is_zero_text port h = elim (Bool-cases (format_int port == codes "0")) [
  | inl on ↦
      let zero : port ≡ pos 0 = same_int port (pos 0) (
        sym (parse_int-format_int port h)
        ∙ ap parse_int ((bytes_beq_iff (format_int port) (codes "0")).0 on ∙ sym zero_text)
        ∙ parse_int-format_int (pos 0) (omega arith)) in
      rw (on, zero) refl
  | inr off ↦ elim (Bool-cases (port == pos 0)) [
    | inl is ↦
        let text : format_int port ≡ codes "0" =
          ap format_int ((int_beq_iff port (pos 0)).0 is) ∙ zero_text in
        absurd (ground (arith, off, (bytes_beq_iff (format_int port) (codes "0")).1 text))
    | inr isnt ↦ rw (off, isnt)
  ]
]

second_part :
    (first second : Bytes)
    → Without b':' first
    → Without b':' second
    → get_elem? (split (first ++ b':' ∷ second) b':') 1 ≡ some second
unfolding split
second_part first second h i =
    rw (split_loop-first b':' first second [] h, split_loop_last b':' second [] i)

middle_part :
    (first second rest : Bytes)
    → Without b':' first
    → Without b':' second
    → get_elem? (split (first ++ (b':' ∷ (second ++ (b':' ∷ rest)))) b':') 1 ≡ some second
unfolding split
middle_part first second rest h i = rw (
  split_loop-first b':' first (second ++ b':' ∷ rest) [] h,
  split_loop-first b':' second rest [] i,
)

module _ (net : Network) (libs : Libraries net) (codecs : Codecs) where
  -- For an IP text without a colon and an int64 port, runServer takes the mock notifier exactly
  -- when the port is 0, and dials the RPC notifier at the address otherwise.
  pub choose_notifier_lem :
      (rpc_ip : Bytes) (port : ℤ)
      → Without b':' rpc_ip
      → IsInt64 port
      → choose_notifier net libs codecs (address rpc_ip port) ≡ (
          if port == pos 0
          then ok mock_event_notifier
          else or_fatal (new_rpc_event_notifier net libs codecs (address rpc_ip port)))
  unfolding choose_notifier
  choose_notifier_lem rpc_ip port h i =
      rw (second_part rpc_ip (format_int port) h (format_int-Without port), is_zero_text port i)

  -- For an IP text with at least two colons, and a text other than 0 between the first two, as in
  -- a bracketed IPv6 address, runServer dials the RPC notifier whatever the port is, 0 included.
  pub colons_in_ip :
      (first second rest : Bytes) (port : ℤ)
      → Without b':' first
      → Without b':' second
      → (second == codes "0") ≡ false
      → choose_notifier net libs codecs (address (first ++ (b':' ∷ (second ++ (b':' ∷ rest)))) port)
        ≡ or_fatal (
            new_rpc_event_notifier net libs codecs
              (address (first ++ (b':' ∷ (second ++ (b':' ∷ rest)))) port))
  unfolding choose_notifier
  colons_in_ip first second rest port h i e =
      let joined : address (first ++ (b':' ∷ (second ++ (b':' ∷ rest)))) port
          ≡ first ++ (b':' ∷ (second ++ (b':' ∷ address rest port))) =
        append_assoc first (b':' ∷ (second ++ (b':' ∷ rest))) (b':' ∷ format_int port)
        ∙ ap (λ q. first ++ (b':' ∷ q))
            (append_assoc second (b':' ∷ rest) (b':' ∷ format_int port)) in
      rw (joined, middle_part first second (address rest port) h i, e)
