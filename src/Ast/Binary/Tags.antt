-- ===== src/Ast/Binary/Tags.antt =====
-- The tag tables of binary.ts. A tag that a table lacks is `undefined` there and `none` here.
use pactum.Prelude.{ℕ, ◌%◌, ◌≡◌, refl, Option, none, some, if◌then◌else◌, ◌==◌}
use pactum.Ast.Types.{CompareOp, ArithOp, FnName}

unfoldable pub compare_op_to_tag : CompareOp → ℕ
compare_op_to_tag CompareOp.eq = 1
compare_op_to_tag CompareOp.ne = 2
compare_op_to_tag CompareOp.gt = 3
compare_op_to_tag CompareOp.ge = 4
compare_op_to_tag CompareOp.lt = 5
compare_op_to_tag CompareOp.le = 6

unfoldable pub tag_to_compare_op : ℕ → Option CompareOp
tag_to_compare_op t =
    if t == 1
    then some CompareOp.eq
    else if t == 2
    then some CompareOp.ne
    else if t == 3
    then some CompareOp.gt
    else if t == 4
    then some CompareOp.ge
    else if t == 5
    then some CompareOp.lt
    else if t == 6
    then some CompareOp.le
    else none

unfoldable pub arith_op_to_tag : ArithOp → ℕ
arith_op_to_tag ArithOp.add = 1
arith_op_to_tag ArithOp.sub = 2
arith_op_to_tag ArithOp.mul = 3
arith_op_to_tag ArithOp.div = 4
arith_op_to_tag ArithOp.rem = 5

unfoldable pub tag_to_arith_op : ℕ → Option ArithOp
tag_to_arith_op t =
    if t == 1
    then some ArithOp.add
    else if t == 2
    then some ArithOp.sub
    else if t == 3
    then some ArithOp.mul
    else if t == 4
    then some ArithOp.div
    else if t == 5
    then some ArithOp.rem
    else none

unfoldable pub fn_name_to_tag : FnName → ℕ
fn_name_to_tag FnName.now = 1
fn_name_to_tag FnName.to_number = 2
fn_name_to_tag FnName.to_date = 3
fn_name_to_tag FnName.len = 4
fn_name_to_tag FnName.lower = 5
fn_name_to_tag FnName.upper = 6
fn_name_to_tag FnName.trim = 7
fn_name_to_tag FnName.is_blank = 8
fn_name_to_tag FnName.abs = 9
fn_name_to_tag FnName.days = 10
fn_name_to_tag FnName.hours = 11

unfoldable pub tag_to_fn_name : ℕ → Option FnName
tag_to_fn_name t =
    if t == 1
    then some FnName.now
    else if t == 2
    then some FnName.to_number
    else if t == 3
    then some FnName.to_date
    else if t == 4
    then some FnName.len
    else if t == 5
    then some FnName.lower
    else if t == 6
    then some FnName.upper
    else if t == 7
    then some FnName.trim
    else if t == 8
    then some FnName.is_blank
    else if t == 9
    then some FnName.abs
    else if t == 10
    then some FnName.days
    else if t == 11
    then some FnName.hours
    else none

pub compare_op-tag : (op : CompareOp) → tag_to_compare_op (compare_op_to_tag op) ≡ some op
unfolding compare_op_to_tag tag_to_compare_op
compare_op-tag CompareOp.eq = refl
compare_op-tag _ = refl

pub arith_op-tag : (op : ArithOp) → tag_to_arith_op (arith_op_to_tag op) ≡ some op
unfolding arith_op_to_tag tag_to_arith_op
arith_op-tag ArithOp.add = refl
arith_op-tag _ = refl

pub fn_name-tag : (fn : FnName) → tag_to_fn_name (fn_name_to_tag fn) ≡ some fn
unfolding fn_name_to_tag tag_to_fn_name
fn_name-tag FnName.now = refl
fn_name-tag _ = refl

-- Every tag fits a byte, so `writeU8` keeps it.
pub compare_op-byte : (op : CompareOp) → compare_op_to_tag op % 256 ≡ compare_op_to_tag op
unfolding compare_op_to_tag
compare_op-byte CompareOp.eq = refl
compare_op-byte _ = refl

pub arith_op-byte : (op : ArithOp) → arith_op_to_tag op % 256 ≡ arith_op_to_tag op
unfolding arith_op_to_tag
arith_op-byte ArithOp.add = refl
arith_op-byte _ = refl

pub fn_name-byte : (fn : FnName) → fn_name_to_tag fn % 256 ≡ fn_name_to_tag fn
unfolding fn_name_to_tag
fn_name-byte FnName.now = refl
fn_name-byte _ = refl
