-- ===== src/Ast/Binary/Decode/RuleSets.antt =====
-- The round trip of whole rule sets, from `serializeRuleSetBinary` to `deserializeRuleSetBinary`.
use pactum.Prelude.{
  ℕ, ◌≡◌, refl, sym, List, [], ◌∷◌, ◌++◌, append-nil, length, arith, true, ◌==◌, Option, none, some,
}
use pactum.Prelude.Results.{Result, ok, ◌>>=◌}
use pactum.Ast.Types.{Expr, Rule, RuleSet}
use pactum.Ast.Binary.Platform.{Platform}
use pactum.Ast.Binary.Writer.Content.{string_bytes, opt_string_bytes}
use pactum.Ast.Binary.Reader.{BinaryReader, CodecError, Read, new_reader}
use pactum.Ast.Binary.Reader.Cursor.{
  At, Returns, Returns-ok, Returns-bind, read_u8-Returns, read_u32-Returns, read_string-Returns,
  read_opt_string-Returns, read_bytes-Returns,
}
use pactum.Ast.Binary.Encode.{magic_header, serialize_rule_set}
use pactum.Ast.Binary.Encode.Bytes.{
  expr_bytes, when_bytes, rule_bytes, rules_bytes, rule_set_bytes, IsPortableWhen, IsPortableRule,
  IsPortableRules, IsPortableRuleSet,
}
use pactum.Ast.Binary.Encode.RuleSets.{IsShallow?, AreShallow, serialize_rule_set-bytes}
use pactum.Ast.Binary.Decode.{
  deserialize_when, deserialize_rule, deserialize_rules, has_magic, deserialize_counted,
  deserialize_versioned, deserialize_rule_set,
}
use pactum.Ast.Binary.Decode.Nodes.{regroup}
use pactum.Ast.Binary.Decode.RoundTrip.{expr_reads}

yields {ℓ} :
    {A B : Type ℓ} {m : Read A} {a : A} {mid : List ℕ} (f : A × BinaryReader → Result CodecError B)
    {b : B}
    → Returns m a mid
    → ((r : BinaryReader) → At r mid → f (a, r) ≡ ok b)
    → (m >>= f) ≡ ok b
yields f h k = rw h.result (k h.reader h.at)

begins : (bytes : List ℕ) → At (new_reader bytes) bytes
unfolding new_reader
begins bytes = record { inside = omega arith; ahead = refl }

first_version : (v : ℕ) → v ≡ 1 → (v == 1) ≡ true
first_version v h = ground arith

module _ (P : Platform) where
  open P use {Num}

  when_reads :
      (o : Option (Expr Num)) (r : BinaryReader) (rest : List ℕ)
      → IsPortableWhen P o
      → At r (when_bytes P o ++ rest)
      → Returns (deserialize_when P r) o rest
  unfolding deserialize_when when_bytes
  when_reads none r rest p h =
      Returns-bind _ (read_u8-Returns r 0 rest h) λ r1 h1. Returns-ok none h1
  when_reads (some e) r rest p h = Returns-bind _ (read_u8-Returns r 1 _ h) λ r1 h1.
      Returns-bind _ (expr_reads P e 66 0 r1 rest (omega arith) (omega arith) p.0 h1)
        λ r2 h2. Returns-ok (some e) h2

  rule_reads :
      (rule : Rule Num) (r : BinaryReader) (rest : List ℕ)
      → IsPortableRule P rule
      → At r (rule_bytes P rule ++ rest)
      → Returns (deserialize_rule P r) rule rest
  unfolding deserialize_rule rule_bytes
  rule_reads rule r rest p h =
      Returns-bind _
        (read_string-Returns P r rule.field_name _ p.field_portable
          (regroup (string_bytes P rule.field_name) _ rest h))
        λ r1 h1.
          Returns-bind _
            (read_string-Returns P r1 rule.message _ p.message_portable
              (regroup (string_bytes P rule.message) _ rest h1))
            λ r2 h2.
              Returns-bind _
                (read_opt_string-Returns P r2 rule.id _ p.id_portable
                  (regroup (opt_string_bytes P rule.id) _ rest h2))
                λ r3 h3.
                  Returns-bind _
                    (expr_reads P rule.check 66 0 r3 _ (omega (arith, p.check_shallow))
                      (omega (arith, p.check_shallow)) p.check_portable
                      (regroup (expr_bytes P rule.check) _ rest h3))
                    λ r4 h4.
                      Returns-bind _ (when_reads rule.guard r4 rest p.guard_portable h4)
                        λ r5 h5. Returns-ok rule h5

  rules_read :
      (rules : List (Rule Num)) (r : BinaryReader) (rest : List ℕ)
      → IsPortableRules P rules
      → At r (rules_bytes P rules ++ rest)
      → Returns (deserialize_rules P (length rules) r) rules rest
  unfolding deserialize_rules rules_bytes
  rules_read [] r rest p h = Returns-ok [] h
  rules_read (rule ∷ rules) r rest p h =
      Returns-bind _
        (rule_reads rule r _ p.0 (regroup (rule_bytes P rule) (rules_bytes P rules) rest h))
        λ r1 h1.
          Returns-bind _ (rules_read rules r1 rest p.1 h1) λ r2 h2. Returns-ok (rule ∷ rules) h2

  rule_set_reads :
      (s : RuleSet Num) → IsPortableRuleSet P s → deserialize_rule_set P (rule_set_bytes P s) ≡ ok s
  unfolding deserialize_rule_set deserialize_versioned deserialize_counted rule_set_bytes has_magic
  rule_set_reads s p = yields _ (read_bytes-Returns _ magic_header _ 4 begin refl) λ r1 h1.
      yields _ (read_u32-Returns r1 s.version _ (omega (arith, p.version_known)) h1) λ r2 h2.
        rw (first_version s.version p.version_known) (
          yields _ (read_u32-Returns r2 (length s.rules) _ p.few h2) λ r3 h3.
            yields _ (rules_read s.rules r3 [] p.rules_portable (rw append-nil h3))
              λ r4 h4. λ i. ok (record { version = sym p.version_known i; rules = s.rules }))
    where
      begin : At (new_reader (rule_set_bytes P s)) (rule_set_bytes P s)
      begin = begins (rule_set_bytes P s)

  shallow_when : (o : Option (Expr Num)) → IsPortableWhen P o → IsShallow? P o
  shallow_when none p = tt
  shallow_when (some e) p = p.1

  shallow : (rules : List (Rule Num)) → IsPortableRules P rules → AreShallow P rules
  shallow [] p = tt
  shallow (r ∷ rs) p = (p.0.check_shallow, shallow_when r.guard p.0.guard_portable, shallow rs p.1)

  -- A rule set of version 1, with at most 2^32 - 1 rules, expressions no deeper than the limit,
  -- lists that fit their counts and strings that the text codec keeps, is serialized without an
  -- error, and deserializing those bytes gives back the rule set.
  pub deserialize-serialize :
      (s : RuleSet Num)
      → IsPortableRuleSet P s
      → (bytes : List ℕ) × (serialize_rule_set P s ≡ ok bytes)
        × (deserialize_rule_set P bytes ≡ ok s)
  deserialize-serialize s p = (
    rule_set_bytes P s,
    serialize_rule_set-bytes P s (shallow s.rules p.rules_portable),
    rule_set_reads s p,
  )
