-- ===== src/Rollup.antt =====
-- frontend/src/lib: the optimistic rollup of the browser and the conflicts of its cached queries.
pub mod Accumulator
pub mod Engine
pub mod Conflicts
