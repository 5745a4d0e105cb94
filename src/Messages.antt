-- ===== src/Messages.antt =====
-- pb/message and pb/event: the messages that nodes exchange. The generated marshalling code and the
-- base-58 form of peer IDs are parameters.
use sharding_p2p_poc.Prelude.{ℤ, Bytes, ◌≡◌, List, Option}
use sharding_p2p_poc.Prelude.Assoc.{Assoc}
use sharding_p2p_poc.Outcome.{Outcome, ok}

pub data Status : Type 0 where
  success failure : Status

pub record Response : Type 0 where
  pub status : Status

pub record Collation : Type 0 where
  pub shard_id : ℤ
  pub period : ℤ
  pub blobs : Bytes

pub record MessageWithType : Type 0 where
  pub msg_type : ℤ
  pub body : Bytes

pub record Peers : Type 0 where
  pub peers : List Bytes

pub record ShardPeerRequest : Type 0 where
  pub shard_ids : List ℤ

-- A message field that is a pointer can be nil.
pub record ShardPeerResponse : Type 0 where
  pub response : Option Response
  pub shard_peers : Assoc ℤ Peers

pub record GeneralRequest : Type 0 where
  pub msg_type : ℤ
  pub body : Bytes

pub record GeneralResponse : Type 0 where
  pub body : Bytes

-- proto.Marshal and proto.Unmarshal of one type of message
pub record Codec (A : Type 0) : Type 0 where
  pub marshal : A → Outcome Bytes
  pub unmarshal : Bytes → Outcome A

-- What was marshalled is unmarshalled to the same message.
abbrev pub RoundTrips : {A : Type 0} → Codec A → Type 0
RoundTrips {A} c = (a : A) (bytes : Bytes) → c.marshal a ≡ ok bytes → c.unmarshal bytes ≡ ok a

pub record Codecs : Type 0 where
  pub collation : Codec Collation
  pub message_with_type : Codec MessageWithType
  pub shard_peer_request : Codec ShardPeerRequest
  pub shard_peer_response : Codec ShardPeerResponse
  pub general_request : Codec GeneralRequest
  pub general_response : Codec GeneralResponse
  -- peer.ID.Pretty and peer.IDB58Decode
  pub pretty : Bytes → Bytes
  pub idb58_decode : Bytes → Outcome Bytes
