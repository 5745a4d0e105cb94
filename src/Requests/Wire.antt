-- ===== src/Requests/Wire.antt =====
-- requests.go: a stream between two nodes, as libp2p documents it: what one end writes arrives at the
-- other, whose handler is called, and what the handler writes comes back.
use sharding_p2p_poc.Prelude.{Bytes, ◌≡◌, ◌≢◌}
use sharding_p2p_poc.Outcome.{ok, panic, returns, fails, panics, ending}
use sharding_p2p_poc.Exec.{Exec}
use sharding_p2p_poc.Messages.{Codecs, Codec}
use sharding_p2p_poc.Network.{Network}
use sharding_p2p_poc.State.{Node}
use sharding_p2p_poc.Requests.{Streams, send_proto_message, read_proto_message}

module _ (net far : Network) (streams : Streams net.World) (far_streams : Streams far.World) where
  -- A request of `bytes` in a protocol, to a peer that is in the state `m` and runs the handler
  pub record Carries (peer protocol bytes : Bytes) (m : Node far)
      (handler : far_streams.Stream → Exec (Node far) (Unit {0})) : Type 0 where
    -- The far end, the far world when its handler is called, and what was written to the far end
    pub far_end : far_streams.Stream
    pub arrived : far.World
    pub written : far.World → Bytes
    pub opens :
        (w : net.World) → (s : streams.Stream) × ((streams.new_stream peer protocol w).0 ≡ ok s)
    pub sends : (s : streams.Stream) (w : net.World) → (streams.encode s bytes w).0 ≡ ok tt
    pub flushes : (s : streams.Stream) (w : net.World) → (streams.flush s w).0 ≢ panic
    pub arrives : (far_streams.decode far_end arrived).0 ≡ ok bytes
    pub answers :
        (b : Bytes) (w : far.World)
        → ((far_streams.encode far_end b w).0 ≡ ok tt)
          × (written (far_streams.encode far_end b w).1 ≡ b)
    pub far_flushes :
        (w : far.World)
        → ((far_streams.flush far_end w).0 ≢ panic)
          × (written (far_streams.flush far_end w).1 ≡ written w)
    pub closes : (w : far.World) → written (far_streams.full_close far_end w) ≡ written w
    pub comes_back :
        (s : streams.Stream) (w : net.World)
        → (streams.decode s (streams.flush s (streams.encode s bytes w).1).1).0
          ≡ ok (written (handler far_end (record m { world = arrived })).1.world)

-- A message that is marshalled and sent
pub send_proto_message-sends :
    (net : Network) (streams : Streams net.World) (codecs : Codecs) {A : Type 0} (codec : Codec A)
    (msg : A) (bytes : Bytes) (s : streams.Stream) (n : Node net)
    → codec.marshal msg ≡ ok bytes
    → (streams.encode s bytes n.world).0 ≡ ok tt
    → (streams.flush s (streams.encode s bytes n.world).1).0 ≢ panic
    → send_proto_message net streams codecs codec msg s n
      ≡ (ok tt, record n { world = (streams.flush s (streams.encode s bytes n.world).1).1 })
unfolding send_proto_message
send_proto_message-sends net streams codecs codec msg bytes s n e f g =
    elim (ending (streams.flush s (streams.encode s bytes n.world).1).0) [
      | panics q ↦ absurd (g q)
      | fails err q ↦ rw (e, f, q)
      | returns u q ↦ rw (e, f, q)
    ]

-- A message that arrives and is unmarshalled
pub read_proto_message-reads :
    (net : Network) (streams : Streams net.World) (codecs : Codecs) {A : Type 0} (codec : Codec A)
    (msg : A) (bytes : Bytes) (s : streams.Stream) (n : Node net)
    → (streams.decode s n.world).0 ≡ ok bytes
    → codec.unmarshal bytes ≡ ok msg
    → read_proto_message net streams codecs codec s n
      ≡ (ok msg, record n { world = (streams.decode s n.world).1 })
unfolding read_proto_message
read_proto_message-reads net streams codecs codec msg bytes s n e f = rw (e, f)
