-- ===== src/Admin/Rules.antt =====
-- apps/server/src/routes/admin.ts: the handlers of the relay rules.
use tyz.Prelude.{
  ℕ, Bool, true, false, not, Option, none, some, List, [], ◌∷◌, ◌++◌, Text, map, filter, find?, any,
  length, if◌then◌else◌, ◌==◌, nat_eq, or_else, ◌⊎◌, inl, inr,
}
use tyz.Js.Map
use tyz.Js.Map.{JsMap, distinct}
use tyz.Js.Text.{codes}
use tyz.Js.Text.Decimal.{show}
use tyz.Entities.{RelayRule, RelayRuleStatus, LimiterConfig}
use tyz.Db.{Database, TunnelRow}
use tyz.Db.Statements.{order_by}
use tyz.Traffic.{service_name}
use tyz.Quota.{QuotaReason, QuotaDecision, quota_decisions_for_users, owner_ids}
use tyz.Realm.{endpoint_address}
use tyz.Realm.Render.{to_relay_rule}
use tyz.Admin.{
  Response, recompute_tunnel, restart_service, refuse, internal_error, respond, patched,
  patched_some, audit_of, record_audit,
}
use tyz.Admin.Shape.{get_tunnel, tunnel_not_found}
use tyz.Admin.Ownership.{validate_rule_ownership, tunnel_node_ids}
use tyz.Admin.Endpoints.{get_endpoint}

-- A `null` of the payload is written as an absent value.
pub record CreateRuleInput : Type 0 where
  pub name : Text
  pub description : Option Text
  pub listen_port : ℕ
  pub tunnel_id : ℕ
  pub targets : Text
  pub endpoint_id : Option ℕ
  pub user_id : Option ℕ
  pub status : RelayRuleStatus
  pub exit_port : ℕ
  pub limit : Option LimiterConfig

-- Of a field that may be `null`, `some none` is the `null`.
pub record UpdateRuleInput : Type 0 where
  pub name : Option Text
  pub description : Option Text
  pub listen_port : Option ℕ
  pub tunnel_id : Option ℕ
  pub targets : Option Text
  pub endpoint_id : Option (Option ℕ)
  pub user_id : Option (Option ℕ)
  pub status : Option RelayRuleStatus
  pub exit_port : Option ℕ
  pub limit : Option (Option LimiterConfig)

pub record AdminRuleRow : Type 0 where
  pub rule : RelayRule
  pub quota_stopped : Bool
  pub quota_reason : Option QuotaReason

unfoldable pub with_decision : JsMap ℕ QuotaDecision → RelayRule → AdminRuleRow
with_decision decisions r =
    let served : AdminRuleRow = record { rule = r; quota_stopped = false; quota_reason = none } in
    elim r.user_id [
      | none ↦ served
      | some u ↦ elim (Map.get decisions u) [
        | none ↦ served
        | some d ↦
            if d.stopped
            then record { rule = r; quota_stopped = true; quota_reason = d.reason }
            else served
      ]
    ]

unfoldable pub list_rules : Database → Text → List AdminRuleRow
unfolding with_decision owner_ids quota_decisions_for_users
list_rules db now =
    let rules = map to_relay_rule (order_by (λ (r : RelayRule). r.id) db.relay_rules) in
    map (with_decision (quota_decisions_for_users db (owner_ids rules) now)) rules

abbrev pub get_rule : Database → ℕ → Option RelayRule
get_rule db id = find? (λ (r : RelayRule). r.id == id) db.relay_rules

-- The owner's package must allow the rule; a rule without an owner is never gated.
abbrev pub ownership_problem : Database → Option ℕ → Option ℕ → Option ℕ → Text → Option Text
ownership_problem db user_id tunnel_id exclude now = elim user_id [
  | none ↦ none
  | some u ↦ validate_rule_ownership db u tunnel_id exclude now
]

abbrev pub endpoint_not_found : ℕ → Text
endpoint_not_found id = codes "endpoint " ++ show id ++ codes " not found"

-- The address of the endpoint, if one is named; `inl` is the one that is missing.
abbrev pub resolve_endpoint : Database → Option ℕ → ℕ ⊎ Option Text
resolve_endpoint db none = inr none
resolve_endpoint db (some id) = elim (get_endpoint db id) [
  | none ↦ inl id
  | some e ↦ inr (some (endpoint_address e.host e.port))
]

unfoldable pub created_rule : CreateRuleInput → Text → ℕ → Text → RelayRule
created_rule input targets id now = record {
  id = id;
  name = input.name;
  description = input.description;
  listen_port = input.listen_port;
  tunnel_id = some input.tunnel_id;
  user_id = input.user_id;
  targets = targets;
  endpoint_id = input.endpoint_id;
  status = input.status;
  exit_port = input.exit_port;
  limit = input.limit;
  quota = none;
  upload_traffic = 0;
  download_traffic = 0;
  created_at = now;
  updated_at = now;
}

unfoldable pub insert_rule :
    CreateRuleInput → Text → ℕ → Text → Text → Database → Response RelayRule
unfolding created_rule record_audit
insert_rule input targets id actor now db =
    let row = created_rule input targets id now in
    respond row
      (record_audit now (audit_of actor (codes "rule.create") (codes "rule") (show id) row.name)
        (record db { relay_rules = db.relay_rules ++ row ∷ [] }))
      (recompute_tunnel input.tunnel_id ∷ [])

unfoldable pub create_rule :
    Option CreateRuleInput → ℕ → Text → Text → Database → Response RelayRule
unfolding insert_rule validate_rule_ownership
create_rule none id actor now db = refuse 400 (codes "invalid rule payload") db
create_rule (some input) id actor now db = elim (get_tunnel db input.tunnel_id) [
  | none ↦ refuse 400 (tunnel_not_found input.tunnel_id) db
  | some _ ↦ elim (ownership_problem db input.user_id (some input.tunnel_id) none now) [
    | some problem ↦ refuse 400 problem db
    | none ↦ elim (resolve_endpoint db input.endpoint_id) [
      | inl missing ↦ refuse 400 (endpoint_not_found missing) db
      | inr address ↦ insert_rule input (or_else address input.targets) id actor now db
    ]
  ]
]

-- A set endpoint is authoritative for the targets.
unfoldable pub patched_rule : UpdateRuleInput → Option Text → Text → RelayRule → RelayRule
patched_rule input address now old = record old {
  name = patched input.name old.name;
  description = patched_some input.description old.description;
  listen_port = patched input.listen_port old.listen_port;
  tunnel_id = patched_some input.tunnel_id old.tunnel_id;
  user_id = patched input.user_id old.user_id;
  endpoint_id = patched input.endpoint_id old.endpoint_id;
  targets = or_else address (patched input.targets old.targets);
  status = patched input.status old.status;
  exit_port = patched input.exit_port old.exit_port;
  limit = patched input.limit old.limit;
  updated_at = now;
}

abbrev pub update_rule_row : ℕ → UpdateRuleInput → Option Text → Text → RelayRule → RelayRule
update_rule_row id input address now r = if r.id == id then patched_rule input address now r else r

-- `new Set` of the old tunnel and the new one
abbrev pub affected_tunnels : UpdateRuleInput → RelayRule → List ℕ
affected_tunnels input existing = distinct (
    elim existing.tunnel_id [ none ↦ [] | some t ↦ t ∷ [] ]
    ++ elim input.tunnel_id [ none ↦ [] | some t ↦ t ∷ [] ])

abbrev tunnel_is_there : Database → Option ℕ → Bool
tunnel_is_there db none = true
tunnel_is_there db (some id) = any (λ (row : TunnelRow). row.id == id) db.tunnels

unfoldable pub save_rule :
    ℕ
    → UpdateRuleInput
    → Option Text
    → RelayRule
    → Text
    → Text
    → Database
    → Response (Option RelayRule)
unfolding patched_rule record_audit
save_rule id input address existing actor now db =
    let saved : Database = record db {
      relay_rules = map (update_rule_row id input address now) db.relay_rules;
    } in
    if tunnel_is_there db input.tunnel_id
    then respond (get_rule saved id)
        (record_audit now
          (audit_of actor (codes "rule.update") (codes "rule") (show id) (or_else input.name []))
          saved)
        (map recompute_tunnel (affected_tunnels input existing))
    else internal_error db

unfoldable pub update_rule :
    ℕ → Option UpdateRuleInput → Text → Text → Database → Response (Option RelayRule)
unfolding save_rule validate_rule_ownership
update_rule id none actor now db = refuse 400 (codes "invalid rule payload") db
update_rule id (some input) actor now db = elim (get_rule db id) [
  | none ↦ refuse 404 (codes "rule not found") db
  | some existing ↦
      elim (ownership_problem db (patched input.user_id existing.user_id)
        (patched_some input.tunnel_id existing.tunnel_id) (some id) now) [
          | some problem ↦ refuse 400 problem db
          | none ↦ elim (resolve_endpoint db (patched input.endpoint_id existing.endpoint_id)) [
            | inl missing ↦ refuse 400 (endpoint_not_found missing) db
            | inr address ↦ save_rule id input address existing actor now db
          ]
        ]
]

unfoldable pub delete_rule : ℕ → Text → Text → Database → Response (Unit {0})
unfolding record_audit
delete_rule id actor now db = elim (get_rule db id) [
  | none ↦ refuse 404 (codes "rule not found") db
  | some existing ↦
      respond tt
        (record_audit now (audit_of actor (codes "rule.delete") (codes "rule") (show id) [])
          (record db { relay_rules = filter (λ (r : RelayRule). not (r.id == id)) db.relay_rules }))
        (elim existing.tunnel_id [ none ↦ [] | some t ↦ recompute_tunnel t ∷ [] ])
]

-- Answers with the number of nodes that are told.
unfoldable pub restart_rule : ℕ → Text → Text → Database → Response ℕ
unfolding record_audit
restart_rule id actor now db = elim (get_rule db id) [
  | none ↦ refuse 404 (codes "rule not found") db
  | some rule ↦ elim rule.tunnel_id [
    | none ↦ refuse 400 (codes "rule is not deployed on any tunnel") db
    | some t ↦
        let node_ids = tunnel_node_ids db t in
        respond (length node_ids)
          (record_audit now
            (audit_of actor (codes "rule.restart") (codes "rule") (show id) rule.name) db)
          (restart_service node_ids (service_name id) ∷ [])
  ]
]

abbrev pub zeroed : ℕ → Text → RelayRule → RelayRule
zeroed id now r =
    if r.id == id
    then record r { upload_traffic = 0; download_traffic = 0; updated_at = now }
    else r

unfoldable pub reset_traffic : ℕ → Text → Text → Database → Response (Unit {0})
unfolding record_audit
reset_traffic id actor now db = elim (get_rule db id) [
  | none ↦ refuse 404 (codes "rule not found") db
  | some rule ↦
      respond tt
        (record_audit now
          (audit_of actor (codes "rule.reset_traffic") (codes "rule") (show id) rule.name)
          (record db { relay_rules = map (zeroed id now) db.relay_rules }))
        []
]
