-- ===== src/Notifier.antt =====
-- eventrpc.go: the interface to the host that judges messages, and its two implementations.
use sharding_p2p_poc.Prelude.{ℤ, Bytes, [], ◌∷◌, Option, none, some}
use sharding_p2p_poc.Outcome.{Outcome, ok, fail, panic, message}
use sharding_p2p_poc.Exec.{Exec, pure, lift, ◌>>=◌}
use sharding_p2p_poc.Messages.{Response, success, failure}
use sharding_p2p_poc.Network.{Network}
use sharding_p2p_poc.State.{Node, external}

-- type EventNotifier interface
pub record EventNotifier (S : Type 0) : Type 0 where
  pub receive : Bytes → ℤ → Bytes → Exec S Bytes

pub record ReceiveRequest : Type 0 where
  pub peer_id : Bytes
  pub msg_type : ℤ
  pub body : Bytes

pub record ReceiveResponse : Type 0 where
  pub response : Option Response
  pub body : Bytes

unfoldable pub mock_event_notifier : {S : Type 0} → EventNotifier S
mock_event_notifier = record { receive = λ peer_id msg_type body. pure (1 ∷ []) }

-- The field of a nil response is read with a panic.
abbrev checked : ReceiveResponse → Option Response → Outcome Bytes
checked res none = panic
checked res (some r) = elim r.status [
  | success ↦ ok res.body
  | failure ↦ fail (message "failure response")
]

module _ (net : Network)
    (client_receive : ReceiveRequest → net.World → Outcome ReceiveResponse × net.World)
    (pretty : Bytes → Bytes) where
  unfoldable pub rpc_event_notifier : EventNotifier (Node net)
  rpc_event_notifier = record {
    receive = λ peer_id msg_type body. do
      res ←
          external net
            (client_receive (record { peer_id = pretty peer_id; msg_type = msg_type; body = body }))
      lift (checked res res.response);
  }
