-- ===== src/RateLimit/Rules.antt =====
-- Which rule a request falls under, and that buckets of different rules are apart.
use yeah.Base.{
  ◌≡◌, ◌≢◌, ◌↔◌, ◌⊎◌, inl, inr, refl, none, some, [], ◌∷◌, ◌++◌, Text, codes, equal_iff, All, arith,
}
use yeah.RateLimit.{RateRule, bucket_id, rule_for, auth_rule, webhook_rule, write_rule}

abbrev pub NoColon : Text → Type 0
NoColon = All (λ c. c ≢ b':')

-- Two texts up to their first colon, and what follows it.
colon-separates :
    (a b s t : Text) → NoColon a → NoColon b → a ++ b':' ∷ s ≡ b ++ b':' ∷ t → (a ≡ b) × (s ≡ t)
colon-separates [] [] s t h k e = (refl, cc)
colon-separates [] (c ∷ b) s t h k e = absurd (k.0 (cc))
colon-separates (c ∷ a) [] s t h k e = absurd (h.0 (cc))
colon-separates (c ∷ a) (d ∷ b) s t h k e =
    let (same, rest) = colon-separates a b s t h.1 k.1 (cc) in (cc, rest)

rule_for-cases :
    (method pathname : Text) {rule : RateRule}
    → rule_for method pathname ≡ some rule
    → (rule ≡ auth_rule) ⊎ (rule ≡ webhook_rule) ⊎ (rule ≡ write_rule)
unfolding rule_for
rule_for-cases method pathname e = ground arith

rule_for-NoColon :
    (method pathname : Text) {rule : RateRule}
    → rule_for method pathname ≡ some rule
    → NoColon rule.name
rule_for-NoColon method pathname e = elim (rule_for-cases method pathname e) [
  | inl is ↦ rw is (omega arith)
  | inr other ↦ elim other [ inl is ↦ rw is (omega arith) | inr is ↦ rw is (omega arith) ]
]

-- Two requests that are limited share a bucket only if they fall under rules of the same name and
-- come with the same key: no key, whatever it holds, reaches the bucket of another rule or key.
pub rule_for-separates :
    (method method' pathname pathname' key key' : Text) (rule rule' : RateRule)
    → rule_for method pathname ≡ some rule
    → rule_for method' pathname' ≡ some rule'
    → bucket_id rule key ≡ bucket_id rule' key'
    → (rule.name ≡ rule'.name) × (key ≡ key')
unfolding bucket_id
rule_for-separates method method' pathname pathname' key key' rule rule' e e' same =
    colon-separates rule.name rule'.name key key' (rule_for-NoColon method pathname e)
      (rule_for-NoColon method' pathname' e') same

-- A request is not limited exactly if its method is none of POST, PUT, PATCH and DELETE.
pub rule_for-none_iff :
    (method pathname : Text)
    → (rule_for method pathname ≡ none) ↔ (
        (method ≢ codes "POST")
        × (method ≢ codes "PUT")
        × (method ≢ codes "PATCH")
        × (method ≢ codes "DELETE"))
unfolding rule_for
rule_for-none_iff method pathname = ground (
  arith,
  equal_iff method (codes "POST"),
  equal_iff method (codes "PUT"),
  equal_iff method (codes "PATCH"),
  equal_iff method (codes "DELETE"),
)
