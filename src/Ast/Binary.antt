-- ===== src/Ast/Binary.antt =====
-- frontend/src/lib/ast/binary.ts: the binary format of rule sets.
pub mod Platform
pub mod Writer
pub mod Reader
pub mod Tags
pub mod Encode
pub mod Decode
