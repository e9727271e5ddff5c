-- ===== src/Admin/RuleOutcomes.antt =====
-- apps/server/src/routes/admin.ts: what a write of a rule or an endpoint leaves of both tables.
use tyz.Prelude.{
  ℕ, ◌≡◌, refl, not, ◌⊎◌, Option, some, List, [], ◌∷◌, ◌++◌, Text, map, filter, ◌==◌, nat_eq, arith,
  inr, or_else,
}
use tyz.Entities.{Endpoint, RelayRule}
use tyz.Db.{Database}
use tyz.Admin.{patched, record_audit}
use tyz.Admin.Endpoints.{
  CreateEndpointInput, UpdateEndpointInput, get_endpoint, references, create_endpoint,
  created_endpoint, save_endpoint, update_endpoint, delete_endpoint,
}
use tyz.Admin.Rules.{
  CreateRuleInput, UpdateRuleInput, get_rule, resolve_endpoint, created_rule, insert_rule,
  create_rule, update_rule_row, save_rule, update_rule, delete_rule, zeroed, reset_traffic,
}

-- Two databases with the same endpoints and rules.
abbrev pub Agrees : Database → Database → Type 0
Agrees a b = (a.endpoints ≡ b.endpoints) × (a.relay_rules ≡ b.relay_rules)

abbrev pub with_rules : Database → List RelayRule → Database
with_rules db rules = record db { relay_rules = rules }

module _ (actor now : Text) (db : Database) where
  pub create_rule-outcome :
      (input : CreateRuleInput) (id : ℕ)
      → Agrees (create_rule (some input) id actor now db).db db
        ⊎ ((address : Option Text) × (resolve_endpoint db input.endpoint_id ≡ inr address)
            × Agrees (create_rule (some input) id actor now db).db (
                with_rules db (
                  db.relay_rules
                  ++ created_rule input (or_else address input.targets) id now ∷ [])))
  unfolding create_rule insert_rule record_audit
  create_rule-outcome input id = ground arith

  pub update_rule-outcome :
      (id : ℕ) (input : UpdateRuleInput)
      → Agrees (update_rule id (some input) actor now db).db db
        ⊎ ((existing : RelayRule) × (get_rule db id ≡ some existing)
            × ((address : Option Text) × (resolve_endpoint db
                    (patched input.endpoint_id existing.endpoint_id)
                  ≡ inr address)
                × Agrees
                    (update_rule id (some input) actor now db).db
                    (with_rules db (map (update_rule_row id input address now) db.relay_rules))))
  unfolding update_rule save_rule record_audit
  update_rule-outcome id input = ground arith

  pub delete_rule-outcome :
      (id : ℕ)
      → Agrees (delete_rule id actor now db).db db
        ⊎ Agrees
            (delete_rule id actor now db).db
            (with_rules db (filter (λ (r : RelayRule). not (r.id == id)) db.relay_rules))
  unfolding delete_rule record_audit
  delete_rule-outcome id = ground arith

  pub reset_traffic-outcome :
      (id : ℕ)
      → Agrees (reset_traffic id actor now db).db db
        ⊎ Agrees
            (reset_traffic id actor now db).db
            (with_rules db (map (zeroed id now) db.relay_rules))
  unfolding reset_traffic record_audit
  reset_traffic-outcome id = ground arith

  pub create_endpoint-outcome :
      (input : CreateEndpointInput) (id : ℕ)
      → Agrees
          (create_endpoint (some input) id actor now db).db
          (record db { endpoints = db.endpoints ++ created_endpoint input id now ∷ [] })
  unfolding create_endpoint record_audit
  create_endpoint-outcome input id = (refl, refl)

  pub update_endpoint-outcome :
      (id : ℕ) (input : UpdateEndpointInput)
      → Agrees (update_endpoint id (some input) actor now db).db db
        ⊎ ((existing : Endpoint) × (get_endpoint db id ≡ some existing)
            × Agrees
                (update_endpoint id (some input) actor now db).db
                (save_endpoint id input existing now db).0)
  unfolding update_endpoint record_audit
  update_endpoint-outcome id input = ground arith

  pub delete_endpoint-outcome :
      (id : ℕ)
      → Agrees (delete_endpoint id actor now db).db db
        ⊎ ((filter (references id) db.relay_rules ≡ [])
            × Agrees (delete_endpoint id actor now db).db (record db {
              endpoints = filter (λ (e : Endpoint). not (e.id == id)) db.endpoints;
            }))
  unfolding delete_endpoint record_audit
  delete_endpoint-outcome id = ground arith
