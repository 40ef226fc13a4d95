-- ===== src/Ast.antt =====
-- frontend/src/lib/ast: the rules engine behind the form validation.
pub mod Types
pub mod Binary
pub mod Values
pub mod Runtime
pub mod Regex
pub mod Compiler
pub mod Resolver
