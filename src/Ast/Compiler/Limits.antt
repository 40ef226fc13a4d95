-- ===== src/Ast/Compiler/Limits.antt =====
-- What holds of the compilation of any value: it ends, and it stays within the node budget.
