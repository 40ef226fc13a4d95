-- ===== src/Ast/Binary/Encode/RuleSets.antt =====
-- What `serializeRule` and `serializeRuleSetBinary` write.
use pactum.Prelude.{
  ℕ, ◌≤◌, ◌≡◌, refl, ap, ◌∙◌, List, [], ◌∷◌, ◌++◌, length, arith, Option, none, some,
}
use pactum.Prelude.Results.{ok}
use pactum.Ast.Types.{Expr, Rule, RuleSet}
use pactum.Ast.Binary.Platform.{Platform}
use pactum.Ast.Binary.Writer.{BinaryWriter, to_bytes, write_u32, write_bytes, u32_bytes}
use pactum.Ast.Binary.Writer.Content.{
  IsValid, Appends-refl, write_u32-Appends, write_bytes-Appends, write_string-Appends,
  write_opt_string-Appends,
}
use pactum.Ast.Binary.Encode.{
  max_expr_depth, fresh_writer, magic_header, serialize_when, serialize_rule, serialize_rules,
  serialize_rule_set,
}
use pactum.Ast.Binary.Encode.Bytes.{height, when_bytes, rule_bytes, rules_bytes, rule_set_bytes}
use pactum.Ast.Binary.Encode.Writes.{Writes, after, done, chain, tag, serialize_expr-appends}

module _ (P : Platform) where
  open P use {Num}

  -- The expressions of a rule stay within the depth limit.
  abbrev pub IsShallow? : Option (Expr Num) → Type 0
  IsShallow? none = Unit
  IsShallow? (some e) = height e ≤ max_expr_depth

  abbrev pub AreShallow : List (Rule Num) → Type 0
  AreShallow [] = Unit
  AreShallow (r ∷ rs) = (height r.check ≤ max_expr_depth) × IsShallow? r.guard × AreShallow rs

  serialize_when-Writes :
      (o : Option (Expr Num)) (w : BinaryWriter)
      → IsValid w
      → IsShallow? o
      → Writes w (serialize_when P o w) (when_bytes P o)
  unfolding serialize_when when_bytes
  serialize_when-Writes none w v h = done (tag w 0 v refl)
  serialize_when-Writes (some e) w v h =
      after (tag w 1 v refl) λ v1. serialize_expr-appends P e _ 0 v1 (omega arith)

  serialize_rule-Writes :
      (r : Rule Num) (w : BinaryWriter)
      → IsValid w
      → height r.check ≤ max_expr_depth
      → IsShallow? r.guard
      → Writes w (serialize_rule P r w) (rule_bytes P r)
  unfolding serialize_rule rule_bytes
  serialize_rule-Writes r w v h g = after (write_string-Appends P w r.field_name v) λ v1.
      after (write_string-Appends P _ r.message v1) λ v2.
        after (write_opt_string-Appends P _ r.id v2) λ v3.
          chain _ (serialize_expr-appends P r.check _ 0 v3 (omega arith))
            λ w4 v4. serialize_when-Writes r.guard w4 v4 g

  serialize_rules-Writes :
      (rs : List (Rule Num)) (w : BinaryWriter)
      → IsValid w
      → AreShallow rs
      → Writes w (serialize_rules P rs w) (rules_bytes P rs)
  unfolding serialize_rules rules_bytes
  serialize_rules-Writes [] w v h = done (Appends-refl v)
  serialize_rules-Writes (r ∷ rs) w v h =
      chain _ (serialize_rule-Writes r w v h.0 h.1) λ w1 v1. serialize_rules-Writes rs w1 v1 h.2

  fresh_writer-IsValid : IsValid fresh_writer × (to_bytes fresh_writer ≡ [])
  unfolding fresh_writer to_bytes
  fresh_writer-IsValid = (record { within = omega arith }, refl)

  -- `serializeRuleSetBinary` never fails on a rule set whose expressions stay within the depth
  -- limit, and returns exactly the bytes of the format.
  pub serialize_rule_set-bytes :
      (s : RuleSet Num) → AreShallow s.rules → serialize_rule_set P s ≡ ok (rule_set_bytes P s)
  unfolding serialize_rule_set rule_set_bytes
  serialize_rule_set-bytes s h = rw all.result (ap ok content)
    where
      all :
          Writes fresh_writer
            (serialize_rules P s.rules (
              write_u32
                (write_u32 (write_bytes fresh_writer magic_header) s.version)
                (length s.rules)))
            (magic_header
              ++ (u32_bytes s.version ++ (u32_bytes (length s.rules) ++ rules_bytes P s.rules)))
      all = after (write_bytes-Appends _ magic_header fresh_writer-IsValid.0) λ v1.
          after (write_u32-Appends _ s.version v1) λ v2.
            after (write_u32-Appends _ (length s.rules) v2)
              λ v3. serialize_rules-Writes s.rules _ v3 h

      content : to_bytes all.writer ≡ rule_set_bytes P s
      content =
          all.appends.appended
          ∙ ap
              (λ (l : List ℕ).
                l
                ++ (magic_header
                    ++ (u32_bytes s.version
                        ++ (u32_bytes (length s.rules) ++ rules_bytes P s.rules))))
              fresh_writer-IsValid.1
