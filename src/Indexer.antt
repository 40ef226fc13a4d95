-- ===== src/Indexer.antt =====
-- backend/src/indexer: the ledger store and the finality indexer.
pub mod Types
pub mod Store
pub mod Finality
pub mod HorizonSse
