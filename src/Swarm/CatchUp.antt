-- ===== src/Swarm/CatchUp.antt =====
-- Whatever was lost or came late, the newest announcements are enough for the nodes to agree.
use sharding_p2p_poc.Prelude.{
  ℕ, ◌==◌, Bytes, bytes_eq, bytes_beq_iff, false, ◌&&◌, ◌≡◌, refl, sym, ◌∙◌, arith, List, [], ◌∷◌,
  All, ==_refl, Option, none, some, get_elem?, Bool-cases, inl, inr,
}
use sharding_p2p_poc.PrefTable.View.{listens}
use sharding_p2p_poc.Swarm.{
  Swarm, newest, deliver_newest, catch_up, delivered, Reach, here, next, new_swarm, IsCurrent,
}
use sharding_p2p_poc.Swarm.Tracks.{Inv, Reach-Inv, new_swarm-Inv, own_view}
use sharding_p2p_poc.Swarm.Agreement.{current_view}

Reach-trans : {x y z : Swarm} → Reach x y → Reach y z → Reach x z
Reach-trans r here = r
Reach-trans r (next q st) = next (Reach-trans r q) st

-- The state is reached by handling messages; nobody announces, nobody's own preferences change,
-- and who is current stays so.
record Handles (sw sw' : Swarm) : Type 0 where
  reached : Reach sw sw'
  published : (c : Bytes) → sw'.published c ≡ sw.published c
  own : (c : Bytes) (t : ℕ) → listens (sw'.table c) c t ≡ listens (sw.table c) c t
  current : (c d : Bytes) → IsCurrent sw c d → IsCurrent sw' c d

Handles-refl : (sw : Swarm) → Handles sw sw
Handles-refl sw = record {
  reached = here;
  published = λ c. refl;
  own = λ c t. refl;
  current = λ c d e. e;
}

Handles-trans : {x y z : Swarm} → Handles x y → Handles y z → Handles x z
Handles-trans u v = record {
  reached = Reach-trans u.reached v.reached;
  published = λ c. v.published c ∙ u.published c;
  own = λ c t. v.own c t ∙ u.own c t;
  current = λ c d e. v.current c d (u.current c d e);
}

newest_first :
    (messages : List Bytes) (bytes : Bytes)
    → newest messages ≡ some bytes
    → get_elem? messages 0 ≡ some bytes
newest_first [] bytes e = e
newest_first (m ∷ older) bytes e = e

module _ (a b : Bytes) (ne : (a == b) ≡ false) where
  newest-Handles :
      (sw : Swarm) (m : Option Bytes)
      → newest (sw.published a) ≡ m
      → Handles sw (deliver_newest a b m sw)
  newest-Handles sw none e = Handles-refl sw
  newest-Handles sw (some bytes) e = record {
    reached = next here (delivered a b 0 bytes ne (newest_first (sw.published a) bytes e));
    published = λ c. refl;
    own = own_view sw a b bytes ne;
    current = λ c d cur. elim (Bool-cases ((a == c) && (b == d))) [
      | inl on ↦ rw on (sym e ∙ ground (arith, on, bytes_beq_iff a c))
      | inr off ↦ rw off cur
    ];
  }

  newest-IsCurrent :
      (sw : Swarm) (m : Option Bytes)
      → Inv sw
      → newest (sw.published a) ≡ m
      → IsCurrent (deliver_newest a b m sw) a b
  newest-IsCurrent sw none inv e = inv.silent a b e ∙ sym e
  newest-IsCurrent sw (some bytes) inv e = rw (==_refl a, ==_refl b) (sym e)

-- The pairs of two different nodes
abbrev pub Different : Bytes × Bytes → Type 0
Different pair = (pair.0 == pair.1) ≡ false

-- The receiver is current, and knows what the sender preferred in the state `sw`.
abbrev pub Knows : Swarm → Swarm → Bytes × Bytes → Type 0
Knows sw sw' pair =
    IsCurrent sw' pair.0 pair.1
    × ((t : ℕ) → listens (sw'.table pair.1) pair.0 t ≡ listens (sw.table pair.0) pair.0 t)

catch_up-Handles :
    (pairs : List (Bytes × Bytes)) (sw : Swarm)
    → All Different pairs
    → Handles sw (catch_up pairs sw)
unfolding catch_up
catch_up-Handles [] sw h = Handles-refl sw
catch_up-Handles ((a, b) ∷ pairs) sw h =
    Handles-trans (newest-Handles a b h.0 sw (newest (sw.published a)) refl)
      (catch_up-Handles pairs (deliver_newest a b (newest (sw.published a)) sw) h.1)

catch_up-Current :
    (pairs : List (Bytes × Bytes)) (sw : Swarm)
    → Inv sw
    → All Different pairs
    → All (λ pair. IsCurrent (catch_up pairs sw) pair.0 pair.1) pairs
unfolding catch_up
catch_up-Current [] sw inv h = tt
catch_up-Current ((a, b) ∷ pairs) sw inv h =
    let sw' = deliver_newest a b (newest (sw.published a)) sw in
    let first = newest-Handles a b h.0 sw (newest (sw.published a)) refl in
    (
      (catch_up-Handles pairs sw' h.1).current a b
          (newest-IsCurrent a b h.0 sw (newest (sw.published a)) inv refl),
      catch_up-Current pairs sw' (Reach-Inv inv first.reached) h.1,
    )

All-Knows :
    {sw sw' : Swarm}
    → Inv sw'
    → Handles sw sw'
    → (pairs : List (Bytes × Bytes)) → All Different pairs
    → All (λ pair. IsCurrent sw' pair.0 pair.1) pairs
    → All (Knows sw sw') pairs
All-Knows inv handles [] h q = tt
All-Knows inv handles ((a, b) ∷ pairs) h q = (
  (q.0, λ t. current_view inv a b h.0 q.0 t ∙ handles.own a t),
  All-Knows inv handles pairs h.1 q.1,
)

-- From every state that announcements and handled messages lead to, however many messages are
-- lost, late, repeated or out of order and with no node handling its own, and for every finite
-- list of pairs of different nodes: when, for one pair after the other, the newest message of the
-- sender, if it has any, is handled by the receiver, then no node's own preferences have changed,
-- and the receiver of each pair has handled last what the sender published last and knows exactly
-- the preferences that the sender had.
pub catch_up-agreement :
    {sw : Swarm}
    → Reach new_swarm sw
    → (pairs : List (Bytes × Bytes)) → All Different pairs
    → Reach sw (catch_up pairs sw)
      × ((c : Bytes) (t : ℕ) → listens ((catch_up pairs sw).table c) c t ≡ listens (sw.table c) c t)
      × All (Knows sw (catch_up pairs sw)) pairs
catch_up-agreement {sw} r pairs h =
    let inv = Reach-Inv new_swarm-Inv r in
    let handles = catch_up-Handles pairs sw h in
    (
      handles.reached,
      handles.own,
      All-Knows (Reach-Inv inv handles.reached) handles pairs h (catch_up-Current pairs sw inv h),
    )
