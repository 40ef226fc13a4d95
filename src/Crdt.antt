-- ===== src/Crdt.antt =====
-- frontend/src/lib/crdt: causal clocks and the merge of local with canonical records.
pub mod VectorClock
pub mod Merge
