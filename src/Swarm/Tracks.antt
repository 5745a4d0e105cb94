-- ===== src/Swarm/Tracks.antt =====
-- What the nodes know of one another in every reachable state.
use sharding_p2p_poc.Prelude.{
  ℕ, ◌<◌, ◌==◌, pos, Bytes, bytes_eq, bytes_beq_iff, Bool, false, ◌≡◌, refl, subst, sym, ap, ◌∙◌,
  arith, List, [], ◌∷◌, All, Option, none, some, zero, suc, get_elem?, ◌≢◌, if◌then◌else◌,
  Bool-cases, inl, inr,
}
use sharding_p2p_poc.Outcome.{ok}
use sharding_p2p_poc.Shards.{num_shards, from_bytes}
use sharding_p2p_poc.Shards.View.{bit_at}
use sharding_p2p_poc.PrefTable.{ShardPrefTable}
use sharding_p2p_poc.PrefTable.View.{IsTable, listens}
use sharding_p2p_poc.PrefTable.Ops.{
  new_shard_pref_table-IsTable, listens-new, set_peer_listening_shard-IsTable,
  listens-set_peer_listening_shard,
}
use sharding_p2p_poc.Discovery.Advertise.{toggled}
use sharding_p2p_poc.Swarm.{
  announcement, hear, Swarm, newest, announce, deliver, Step, announced, delivered, Reach, here,
  next, new_swarm,
}
use sharding_p2p_poc.Swarm.Announces.{WellFormedBytes, announced_facts}

-- The preferences that a message tells, if there is one
abbrev pub view : Option Bytes → ℕ → Bool
view none t = false
view (some bytes) t = bit_at bytes t

-- The tables and the messages are well formed, each node's newest message tells its preferences, and
-- each node knows of each other what it heard last.
pub record Inv (sw : Swarm) : Type 0 where
  pub tables : (p : Bytes) → IsTable (sw.table p)
  pub messages : (a : Bytes) → All WellFormedBytes (sw.published a)
  pub own : (a : Bytes) (t : ℕ) → view (newest (sw.published a)) t ≡ listens (sw.table a) a t
  pub known :
      (a b : Bytes) → (a == b) ≡ false → (t : ℕ) → view (sw.heard a b) t ≡ listens (sw.table b) a t
  pub silent : (a b : Bytes) → newest (sw.published a) ≡ none → sw.heard a b ≡ none

pub new_swarm-Inv : Inv new_swarm
new_swarm-Inv = record {
  tables = λ p. new_shard_pref_table-IsTable;
  messages = λ a. tt;
  own = λ a t. sym (listens-new a t);
  known = λ a b p t. sym (listens-new a t);
  silent = λ a b p. refl;
}

-- A node's table changes at its own entry only.
toggled_elsewhere :
    (p : Bytes) (s : ℕ) (r : Bytes → ℕ → Bool) (a : Bytes) (t : ℕ)
    → (p == a) ≡ false
    → toggled p s r a t ≡ r a t
toggled_elsewhere p s r a t e = elim (Bool-cases (r p s)) [
  | inl on ↦ ground (arith, on, e)
  | inr off ↦ ground (arith, off, e)
]

announced-Inv :
    (sw : Swarm) (p : Bytes) (s : ℕ) (t : ShardPrefTable) (bytes : Bytes)
    → s < num_shards
    → announcement p (sw.table p) (pos s) ≡ ok (t, bytes)
    → Inv sw
    → Inv (announce p t bytes sw)
announced-Inv sw p s t bytes h e inv =
    let (w, relation, fine, own) = announced_facts p (sw.table p) s t bytes (inv.tables p) h e in
    record {
      tables =
          λ q. elim (Bool-cases (p == q)) [ inl on ↦ rw on w | inr off ↦ rw off (inv.tables q) ];
      messages = λ a. elim (Bool-cases (p == a)) [
        | inl on ↦ rw on (fine, inv.messages a)
        | inr off ↦ rw off (inv.messages a)
      ];
      own = λ a k. elim (Bool-cases (p == a)) [
        | inl on ↦ rw on (own k ∙ ap (λ q. listens t q k) ((bytes_beq_iff p a).0 on))
        | inr off ↦ rw off (inv.own a k)
      ];
      known = λ a b ne k. elim (Bool-cases (p == b)) [
        | inl heard ↦
            let same : p ≡ b = (bytes_beq_iff p b).0 heard in
            let off : (p == a) ≡ false =
              ground (arith, bytes_beq_iff p a, bytes_beq_iff a b, same, ne) in
            rw heard (
              inv.known a b ne k
              ∙ sym (
                  relation a k
                  ∙ toggled_elsewhere p s (listens (sw.table p)) a k off
                  ∙ ap (λ q. listens (sw.table q) a k) same))
        | inr unheard ↦ rw unheard (inv.known a b ne k)
      ];
      silent = λ a b none_yet. elim (Bool-cases (p == a)) [
        | inl on ↦ absurd (ground (arith, on, none_yet))
        | inr off ↦ inv.silent a b (ground (arith, off, none_yet))
      ];
    }

-- A handled message changes what the node knows of the sender, and nothing else.
listens-hear :
    (a bytes : Bytes) (n : ShardPrefTable) (q : Bytes) (k : ℕ)
    → listens (hear a bytes n) q k ≡ (if a == q then bit_at bytes k else listens n q k)
unfolding hear from_bytes
listens-hear a bytes n q k =
    listens-set_peer_listening_shard n a (record { shard_bits = bytes }) q k

-- A message that was published is well formed, and there is a newest one.
published_one :
    (messages : List Bytes) (i : ℕ) (bytes : Bytes)
    → All WellFormedBytes messages
    → get_elem? messages i ≡ some bytes
    → WellFormedBytes bytes × (newest messages ≢ none)
published_one [] i bytes w e = absurd cc
published_one (m ∷ older) zero bytes w e =
    let same : m ≡ bytes = cc in (subst WellFormedBytes same w.0, λ p. cc)
published_one (m ∷ older) (suc i) bytes w e = ((published_one older i bytes w.1 e).0, λ p. cc)

module _ (sw : Swarm) (a b bytes : Bytes) (ne : (a == b) ≡ false) where
  pub own_view :
      (c : Bytes) (k : ℕ) → listens ((deliver a b bytes sw).table c) c k ≡ listens (sw.table c) c k
  own_view c k = elim (Bool-cases (b == c)) [
    | inl on ↦
        let same : b ≡ c = (bytes_beq_iff b c).0 on in
        let other : (a == c) ≡ false = subst (λ q. (a == q) ≡ false) same ne in
        rw on (listens-hear a bytes (sw.table b) c k ∙ rw (other, same))
    | inr off ↦ rw off
  ]

  heard_view :
      Inv sw
      → (c d : Bytes) → (c == d) ≡ false
      → (k : ℕ)
      → view ((deliver a b bytes sw).heard c d) k ≡ listens ((deliver a b bytes sw).table d) c k
  heard_view inv c d ne' k = elim (Bool-cases (b == d)) [
    | inr off ↦ rw off (ground (arith, off, inv.known c d ne' k))
    | inl on ↦
        let same : b ≡ d = (bytes_beq_iff b d).0 on in
        elim (Bool-cases (a == c)) [
          | inl own ↦ rw (on, own) (sym (listens-hear a bytes (sw.table b) c k ∙ rw own))
          | inr other ↦
              rw (on, other)
                (inv.known c d ne' k
                  ∙ sym (
                      listens-hear a bytes (sw.table b) c k
                      ∙ rw other (ap (λ q. listens (sw.table q) c k) same)))
        ]
  ]

  pub delivered-Inv :
      (i : ℕ) → get_elem? (sw.published a) i ≡ some bytes → Inv sw → Inv (deliver a b bytes sw)
  delivered-Inv i e inv =
      let (fine, some_newest) = published_one (sw.published a) i bytes (inv.messages a) e in
      record {
        tables = λ q. elim (Bool-cases (b == q)) [
          | inl on ↦ rw on (
              unfold hear from_bytes in
              set_peer_listening_shard-IsTable (sw.table b) a (inv.tables b)
                (record { shard_bits = bytes }) fine)
          | inr off ↦ rw off (inv.tables q)
        ];
        messages = inv.messages;
        own = λ c k. inv.own c k ∙ sym (own_view c k);
        known = heard_view inv;
        silent = λ c d none_yet. elim (Bool-cases (a == c)) [
          | inl on ↦ absurd (
              some_newest (ap (λ q. newest (sw.published q)) ((bytes_beq_iff a c).0 on) ∙ none_yet))
          | inr off ↦ rw off (inv.silent c d none_yet)
        ];
      }

pub Step-Inv : {sw sw' : Swarm} → Step sw sw' → Inv sw → Inv sw'
Step-Inv {sw} (announced p s t bytes h e) inv = announced-Inv sw p s t bytes h e inv
Step-Inv {sw} (delivered a b i bytes ne e) inv = delivered-Inv sw a b bytes ne i e inv

pub Reach-Inv : {sw sw' : Swarm} → Inv sw → Reach sw sw' → Inv sw'
Reach-Inv inv here = inv
Reach-Inv inv (next r st) = Step-Inv st (Reach-Inv inv r)
