-- ===== src/Indexer/Types.antt =====
-- backend/src/indexer/types.ts. The payload of an event is opaque: its JSON text.
use pactum.Prelude.{ℕ, List, Option, Text}

pub record LedgerEvent : Type 0 where
  pub id : Text
  pub event_type : Text
  pub payload : Text

pub record LedgerSnapshot : Type 0 where
  pub sequence : ℕ
  pub hash : Text
  pub previous_hash : Option Text
  pub closed_at : Text
  pub events : List LedgerEvent

pub record LedgerCheckpoint : Type 0 where
  pub sequence : ℕ
  pub hash : Text

-- What the source answers while one `sync` runs: `getLatestLedger().sequence` and `getLedger`.
pub record LedgerSource : Type 0 where
  pub latest : ℕ
  pub get_ledger : ℕ → Option LedgerSnapshot
