-- ===== src/Rpc.antt =====
-- frontend/src/lib: the connections to the Soroban RPC nodes.
pub mod Errors
pub mod Pool
