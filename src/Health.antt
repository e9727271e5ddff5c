-- ===== src/Health.antt =====
-- apps/server/src/services/health.ts: `ingestHealthSnapshot`, the heartbeat of a node.
pub mod Snapshot
pub mod Rules
use tyz.Prelude.{
  ℕ, Bool, true, false, not, ◌&&◌, ◌||◌, Option, none, some, List, [], ◌∷◌, Text, foldl, map,
  filter, if◌then◌else◌, ◌==◌, nat_eq, text_eq,
}
use tyz.Js.Map
use tyz.Js.Map.{JsMap, has}
use tyz.Js.Text.{codes}
use tyz.Js.Text.Decimal.{number}
use tyz.Entities.{RelayRule, RelayRuleStatus, created, paused, running, error}
use tyz.Samples.{ServiceHealthSample}
use tyz.Db.{Database, HealthRow}
use tyz.Db.Statements.{chunk, upsert}
use tyz.Traffic.{service_digits, node_rule_tunnels}

abbrev pub heartbeat_service : Text
heartbeat_service = codes "__heartbeat__"

unfoldable pub same_service : HealthRow → HealthRow → Bool
same_service a b = a.node_id == b.node_id && a.service == b.service

unfoldable pub merge_health : HealthRow → HealthRow → HealthRow
merge_health old excluded = record old {
  state = excluded.state;
  error = excluded.error;
  reported_at = excluded.reported_at;
}

unfoldable pub heartbeat_row : ℕ → Text → HealthRow
heartbeat_row node_id reported_at = record {
  node_id = node_id;
  service = heartbeat_service;
  state = codes "ready";
  error = none;
  reported_at = reported_at;
}

unfoldable pub health_row : ℕ → Text → ServiceHealthSample → HealthRow
health_row node_id reported_at h = record {
  node_id = node_id;
  service = h.service;
  state = h.state;
  error = h.error;
  reported_at = reported_at;
}

-- The liveness stamp, then the snapshot, 16 rows to a statement.
unfoldable pub stamp : ℕ → Text → List ServiceHealthSample → List HealthRow → List HealthRow
unfolding same_service merge_health heartbeat_row health_row
stamp node_id reported_at health rows =
    foldl (foldl (upsert same_service merge_health))
      (upsert same_service merge_health rows (heartbeat_row node_id reported_at))
      (chunk (map (health_row node_id reported_at) health) 16)

-- The services that the node reports; the sentinel always is.
unfoldable pub reported_services : List ServiceHealthSample → List Text
reported_services health = heartbeat_service ∷ map (λ (h : ServiceHealthSample). h.service) health

unfoldable pub stale_services : ℕ → List Text → List HealthRow → List Text
stale_services node_id reported rows =
    filter (λ service. not (has reported service))
      (map (λ (row : HealthRow). row.service) (filter (λ row. row.node_id == node_id) rows))

-- `DELETE … WHERE node_id = … AND service IN (…)`, 90 names to a statement.
unfoldable pub delete_services : ℕ → List HealthRow → List Text → List HealthRow
delete_services node_id rows part =
    filter (λ row. not (row.node_id == node_id && has part row.service)) rows

unfoldable pub drop_stale : ℕ → List Text → List HealthRow → List HealthRow
unfolding stale_services delete_services
drop_stale node_id reported rows =
    foldl (delete_services node_id) rows (chunk (stale_services node_id reported rows) 90)

-- What a state says of a rule, if anything.
unfoldable pub status_of_state : Text → Option RelayRuleStatus
status_of_state state =
    if state == codes "ready" || state == codes "running"
    then some running
    else if state == codes "failed" || state == codes "apply_failed"
    then some error
    else none

unfoldable pub note_status : JsMap ℕ RelayRuleStatus → ServiceHealthSample → JsMap ℕ RelayRuleStatus
unfolding status_of_state
note_status rule_status h = elim (service_digits h.service) [
  | none ↦ rule_status
  | some digits ↦ elim (status_of_state h.state) [
    | none ↦ rule_status
    | some status ↦ Map.set rule_status (number digits) status
  ]
]

-- The statuses of those rules in the part whose tunnel the node serves.
unfoldable pub note_current : List ℕ → JsMap ℕ RelayRuleStatus → RelayRule → JsMap ℕ RelayRuleStatus
note_current rule_tunnels current r = elim r.tunnel_id [
  | none ↦ current
  | some tunnel_id ↦ if has rule_tunnels tunnel_id then Map.set current r.id r.status else current
]

unfoldable pub current_statuses : Database → List ℕ → List ℕ → JsMap ℕ RelayRuleStatus
unfolding note_current
current_statuses db rule_tunnels ids =
    foldl
      (λ current part.
        foldl (note_current rule_tunnels) current (filter (λ r. has part r.id) db.relay_rules))
      [] (chunk ids 90)

abbrev pub status_beq : RelayRuleStatus → RelayRuleStatus → Bool
status_beq created created = true
status_beq paused paused = true
status_beq running running = true
status_beq error error = true
status_beq _ _ = false

-- The update's WHERE: a paused rule keeps its status, and so does one that has the new one.
unfoldable pub set_status : ℕ → RelayRuleStatus → Text → RelayRule → RelayRule
set_status rule_id status reported_at r =
    if r.id == rule_id && (not (status_beq r.status paused) && not (status_beq r.status status))
    then record r { status = status; updated_at = reported_at }
    else r

-- One reported status: no update for a rule that is not the node's, or that has it already.
unfoldable pub write_status :
    JsMap ℕ RelayRuleStatus → Text → List RelayRule → ℕ × RelayRuleStatus → List RelayRule
unfolding set_status
write_status current reported_at rules (rule_id, status) = elim (Map.get current rule_id) [
  | none ↦ rules
  | some cur ↦
      if status_beq cur status then rules else map (set_status rule_id status reported_at) rules
]

unfoldable pub write_statuses : ℕ → JsMap ℕ RelayRuleStatus → Text → Database → Database
unfolding write_status current_statuses
write_statuses node_id rule_status reported_at db =
    let ids = map (λ (e : ℕ × RelayRuleStatus). e.0) rule_status in
    let current = current_statuses db (node_rule_tunnels db node_id) ids in
    record db { relay_rules = foldl (write_status current reported_at) db.relay_rules rule_status }

-- With an empty snapshot, or one that says nothing of a rule, no status is written.
unfoldable pub ingest_health_snapshot : Database → ℕ → List ServiceHealthSample → Text → Database
unfolding stamp reported_services drop_stale note_status write_statuses
ingest_health_snapshot db node_id health reported_at =
    let stamped = record db {
      service_health =
          drop_stale node_id (reported_services health)
            (stamp node_id reported_at health db.service_health);
    } in
    write_statuses node_id (foldl note_status [] health) reported_at stamped
