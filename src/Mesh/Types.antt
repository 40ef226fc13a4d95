-- ===== src/Mesh/Types.antt =====
-- frontend/src/lib/mesh/types.ts: events, protocol messages and the reputation record. A `number`
-- that a peer sends may be negative; a score is counted in hundredths.
use pactum.Prelude.{ℕ, List, Bool, Option, Text}
use pactum.Prelude.Int.{ℤ}

-- `ledger_seq` is `none` where the field is no number.
pub record SorobanIndexedEvent : Type 0 where
  pub id : Text
  pub contract_id : Text
  pub topic : Text
  pub xdr_payload : Text
  pub ledger_seq : Option ℤ
  pub tx_hash : Text
  pub timestamp : ℤ
  pub origin_peer_id : Text
  pub signature : Option Text

pub record GossipData : Type 0 where
  pub message_id : Text
  pub topic : Text
  pub event : SorobanIndexedEvent
  pub hop_count : ℕ
  pub sender_id : Text
  pub timestamp : ℕ

pub data MeshProtocolMessage : Type 0 where
  gossip_data : GossipData → MeshProtocolMessage
  -- The ids, the sender and the time.
  ihave : List Text → Text → ℕ → MeshProtocolMessage
  graft : Option Text → Text → ℕ → MeshProtocolMessage
  prune : Text → ℕ → MeshProtocolMessage
  -- PEER_EXCHANGE, PING, PONG and the anti-entropy messages, which the engine passes over.
  other : MeshProtocolMessage

pub record PeerReputation : Type 0 where
  pub peer_id : Text
  pub score : ℤ
  pub valid_messages_delivered : ℕ
  pub duplicate_messages : ℕ
  pub invalid_messages : ℕ
  pub last_active : ℕ
  pub is_quarantined : Bool
  pub is_banned : Bool
  pub ban_expiry : Option ℕ
