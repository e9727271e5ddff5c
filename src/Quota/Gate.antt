-- ===== src/Quota/Gate.antt =====
-- `applyRuleQuotas`: which rules of a node config are served.
use tyz.Prelude.{
  ℕ, ◌≡◌, refl, ◌∙◌, true, false, Option, none, some, List, [], ◌∷◌, Text, arith, if◌then◌else◌,
  ==_iff, nat_eq, All, All-imp, Option-cases, Bool-cases, inl, inr,
}
use tyz.Js.Map.{has, distinct, has-distinct}
use tyz.Entities.{RelayRule}
use tyz.Db.{Database}
use tyz.Quota.{quota_decisions_for_users, owner_ids, gate, keep_gated, apply_rule_quotas}
use tyz.Quota.Decisions.{decision_of, decisions-batch}

-- A rule with no owner is served as it is; another by the decision on its owner alone.
abbrev pub serve_rule : Database → Text → RelayRule → Option RelayRule
serve_rule db now rule = elim rule.user_id [
  | none ↦ some rule
  | some id ↦
      let d = decision_of db now id in
      if d.stopped
      then none
      else some (elim d.quota [ none ↦ rule | some q ↦ record rule { quota = some q } ])
]

abbrev IsAsked : List ℕ → RelayRule → Type 0
IsAsked ids r = (id : ℕ) → r.user_id ≡ some id → has ids id ≡ true

gate-serve_rule :
    (db : Database) (now : Text) (ids : List ℕ) (r : RelayRule)
    → IsAsked ids r
    → gate (quota_decisions_for_users db ids now) r ≡ serve_rule db now r
unfolding gate
gate-serve_rule db now ids r h = elim (Option-cases r.user_id) [
  | inl free ↦ ground arith
  | inr (id, owned) ↦ ground (arith, decisions-batch ids id (h id owned) db now)
]

keep_gated-congr :
    (f g : RelayRule → Option RelayRule) (rules : List RelayRule)
    → All (λ r. f r ≡ g r) rules
    → keep_gated f rules ≡ keep_gated g rules
unfolding keep_gated
keep_gated-congr f g [] h = refl
keep_gated-congr f g (r ∷ rules) h = ground (arith, keep_gated-congr f g rules h.1)

All-IsAsked :
    (ids : List ℕ) (rules : List RelayRule)
    → ((id : ℕ) → has (owner_ids rules) id ≡ true → has ids id ≡ true)
    → All (IsAsked ids) rules
unfolding owner_ids
All-IsAsked ids [] h = tt
All-IsAsked ids (r ∷ rules) h = (
  λ id owned. h id (ground (arith, ==_iff id id)),
  All-IsAsked ids rules (λ id m. h id (later r.user_id id m)),
)
  where
    later :
        (o : Option ℕ) (id : ℕ)
        → has (owner_ids rules) id ≡ true
        → has (elim o [ none ↦ owner_ids rules | some u ↦ u ∷ owner_ids rules ]) id ≡ true
    later none id m = m
    later (some u) id m = ground arith

-- The rules that are served are those that each rule's own decision serves, in their order: batching
-- the owners changes nothing.
pub apply_rule_quotas-serve_rule :
    (db : Database) (rules : List RelayRule) (now : Text)
    → apply_rule_quotas db rules now ≡ keep_gated (serve_rule db now) rules
unfolding apply_rule_quotas
apply_rule_quotas-serve_rule db rules now =
    let ids = distinct (owner_ids rules) in
    keep_gated-congr (gate (quota_decisions_for_users db ids now)) (serve_rule db now) rules (
      All-imp (IsAsked ids)
        (λ r. gate (quota_decisions_for_users db ids now) r ≡ serve_rule db now r)
        (gate-serve_rule db now ids) rules
        (All-IsAsked ids rules (λ id m. has-distinct (owner_ids rules) id ∙ m)))

-- The rule may be in a config: it has no owner, or its owner is not stopped.
abbrev pub IsAllowed : Database → Text → RelayRule → Type 0
IsAllowed db now r = (id : ℕ) → r.user_id ≡ some id → (decision_of db now id).stopped ≡ false

pub All-keep_gated {ℓ} :
    (P : RelayRule → Type ℓ) (f : RelayRule → Option RelayRule)
    → ((r kept : RelayRule) → f r ≡ some kept → P kept)
    → (rules : List RelayRule) → All P (keep_gated f rules)
unfolding keep_gated
All-keep_gated P f h [] = tt
All-keep_gated P f h (r ∷ rules) = elim (Option-cases (f r)) [
  | inl refused ↦ rw (refused, All) (All-keep_gated P f h rules)
  | inr (kept, e) ↦ rw (e, All) (h r kept e, All-keep_gated P f h rules)
]

serve_rule-IsAllowed :
    (db : Database) (now : Text) (r kept : RelayRule)
    → serve_rule db now r ≡ some kept
    → IsAllowed db now kept
serve_rule-IsAllowed db now r kept e id owned = elim (Option-cases r.user_id) [
  | inl free ↦ ground arith
  | inr (u, of_u) ↦ ground (arith, Bool-cases (decision_of db now u).stopped)
]

-- No rule of a stopped owner comes through.
pub apply_rule_quotas-IsAllowed :
    (db : Database) (rules : List RelayRule) (now : Text)
    → All (IsAllowed db now) (apply_rule_quotas db rules now)
apply_rule_quotas-IsAllowed db rules now =
    rw apply_rule_quotas-serve_rule
      (All-keep_gated (IsAllowed db now) (serve_rule db now) (serve_rule-IsAllowed db now) rules)
