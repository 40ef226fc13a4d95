-- ===== src/Relayer.antt =====
-- backend/src/relayer: the Merkle tree of a batch, the durable queue and the batching of proofs.
pub mod Hex
pub mod MerkleTree
pub mod DurableQueue
pub mod ProofBatch
