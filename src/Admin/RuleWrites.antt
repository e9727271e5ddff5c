-- ===== src/Admin/RuleWrites.antt =====
-- apps/server/src/routes/admin.ts: the writes of rules and endpoints as steps from one database to
-- the next.
use tyz.Prelude.{ℕ, ◌≡◌, Text, some, inl, inr, ◌==◌, nat_eq}
use tyz.Entities.{RelayRule}
use tyz.Db.{Database}
use tyz.Db.Counting.{count}
use tyz.Admin.Endpoints.{
  CreateEndpointInput, UpdateEndpointInput, created_endpoint, create_endpoint, update_endpoint,
  delete_endpoint,
}
use tyz.Admin.Rules.{
  CreateRuleInput, UpdateRuleInput, create_rule, update_rule, delete_rule, reset_traffic,
}
use tyz.Admin.RuleOutcomes.{
  create_rule-outcome, update_rule-outcome, delete_rule-outcome, reset_traffic-outcome,
  create_endpoint-outcome, update_endpoint-outcome, delete_endpoint-outcome,
}
use tyz.Admin.Addressed.{
  IsAddressed, agreeing, created-IsAddressed, updated-IsAddressed, deleted-IsAddressed,
  zeroed-IsAddressed, inserted-IsAddressed, removed-IsAddressed,
}
use tyz.Admin.Readdressed.{saved-IsAddressed}

-- A request whose payload zod accepts; D1 gives a new rule an id that no rule has.
pub data RuleWrite (actor now : Text) (db : Database) : Database → Type 0 where
  add_rule :
      (input : CreateRuleInput) (id : ℕ)
      → count (λ (r : RelayRule). r.id == id) db.relay_rules ≡ 0
      → RuleWrite actor now db (create_rule (some input) id actor now db).db
  change_rule :
      (id : ℕ) (input : UpdateRuleInput)
      → RuleWrite actor now db (update_rule id (some input) actor now db).db
  remove_rule : (id : ℕ) → RuleWrite actor now db (delete_rule id actor now db).db
  reset_rule : (id : ℕ) → RuleWrite actor now db (reset_traffic id actor now db).db
  add_endpoint :
      (input : CreateEndpointInput) (id : ℕ)
      → RuleWrite actor now db (create_endpoint (some input) id actor now db).db
  change_endpoint :
      (id : ℕ) (input : UpdateEndpointInput)
      → RuleWrite actor now db (update_endpoint id (some input) actor now db).db
  remove_endpoint : (id : ℕ) → RuleWrite actor now db (delete_endpoint id actor now db).db

pub data RuleWrites (db : Database) : Database → Type 0 where
  no_write : RuleWrites db db
  next_write :
      (actor now : Text) (mid : Database) {next : Database}
      → RuleWrites db mid
      → RuleWrite actor now mid next
      → RuleWrites db next

write-IsAddressed :
    (actor now : Text) {db next : Database}
    → RuleWrite actor now db next
    → IsAddressed db
    → IsAddressed next
write-IsAddressed actor now {db} (add_rule input id fresh) h =
    elim (create_rule-outcome actor now db input id) [
      | inl same ↦ agreeing same h
      | inr (address, resolved, saved) ↦
          agreeing saved (created-IsAddressed input address id now db resolved fresh h)
    ]
write-IsAddressed actor now {db} (change_rule id input) h =
    elim (update_rule-outcome actor now db id input) [
      | inl same ↦ agreeing same h
      | inr (existing, found, (address, resolved, saved)) ↦
          agreeing saved (updated-IsAddressed id input address now db existing found resolved h)
    ]
write-IsAddressed actor now {db} (remove_rule id) h = elim (delete_rule-outcome actor now db id) [
  | inl same ↦ agreeing same h
  | inr saved ↦ agreeing saved (deleted-IsAddressed id db h)
]
write-IsAddressed actor now {db} (reset_rule id) h = elim (reset_traffic-outcome actor now db id) [
  | inl same ↦ agreeing same h
  | inr saved ↦ agreeing saved (zeroed-IsAddressed id now db h)
]
write-IsAddressed actor now {db} (add_endpoint input id) h =
    agreeing (create_endpoint-outcome actor now db input id)
      (inserted-IsAddressed (created_endpoint input id now) db h)
write-IsAddressed actor now {db} (change_endpoint id input) h =
    elim (update_endpoint-outcome actor now db id input) [
      | inl same ↦ agreeing same h
      | inr (existing, found, saved) ↦
          agreeing saved (saved-IsAddressed id input existing now db found h)
    ]
write-IsAddressed actor now {db} (remove_endpoint id) h =
    elim (delete_endpoint-outcome actor now db id) [
      | inl same ↦ agreeing same h
      | inr (unused, saved) ↦ agreeing saved (removed-IsAddressed id db unused h)
    ]

-- Where every rule has its own id, and each rule that names an endpoint names one that is there and
-- has that endpoint's address as its targets, any sequence of writes of rules and endpoints leads
-- to such a database, new rules' ids being free.
pub writes-IsAddressed :
    {db next : Database} → RuleWrites db next → IsAddressed db → IsAddressed next
writes-IsAddressed no_write h = h
writes-IsAddressed (next_write actor now mid before last) h =
    write-IsAddressed actor now last (writes-IsAddressed before h)
