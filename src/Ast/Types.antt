-- ===== src/Ast/Types.antt =====
-- frontend/src/lib/ast/types.ts: the expression tree, rules and rule sets. `N` is the type of
-- JavaScript numbers.
pub use pactum.Prelude.{Text}
use pactum.Prelude.{ℕ, Bool, List, Option}

pub data RuntimeValue (N : Type 0) : Type 0 where
  null : RuntimeValue N
  bool : Bool → RuntimeValue N
  num : N → RuntimeValue N
  str : Text → RuntimeValue N

-- == != > >= < <=
pub data CompareOp : Type 0 where
  eq ne gt ge lt le : CompareOp

-- + - * / %
pub data ArithOp : Type 0 where
  add sub mul div rem : ArithOp

pub data FnName : Type 0 where
  now to_number to_date len lower upper trim is_blank abs days hours : FnName

mutual
  pub data Expr (N : Type 0) : Type 0 where
    lit : RuntimeValue N → Expr N
    field : Text → Expr N
    neg : Expr N → Expr N
    all_of : Exprs N → Expr N
    any_of : Exprs N → Expr N
    compare : CompareOp → Expr N → Expr N → Expr N
    calc : ArithOp → Expr N → Expr N → Expr N
    in_set : Expr N → Exprs N → Expr N
    matches : Expr N → Text → Option Text → Expr N
    call : FnName → Exprs N → Expr N

  pub data Exprs (N : Type 0) : Type 0 where
    nil : Exprs N
    cons : Expr N → Exprs N → Exprs N

pub record Rule (N : Type 0) : Type 0 where
  pub field_name : Text
  pub message : Text
  pub check : Expr N
  pub guard : Option (Expr N)
  pub id : Option Text

pub record RuleSet (N : Type 0) : Type 0 where
  pub version : ℕ
  pub rules : List (Rule N)
