-- ===== src/Admin/Endpoints.antt =====
-- apps/server/src/routes/admin.ts: the handlers of the stored target endpoints.
use tyz.Prelude.{
  ℕ, Bool, false, not, ◌||◌, Option, none, some, List, [], ◌∷◌, ◌++◌, Text, map, filter, find?,
  length, if◌then◌else◌, ◌==◌, nat_eq, text_eq,
}
use tyz.Js.Map.{distinct}
use tyz.Js.Text.{codes}
use tyz.Js.Text.Decimal.{show}
use tyz.Entities.{Endpoint, RelayRule}
use tyz.Db.{Database}
use tyz.Db.Statements.{order_by}
use tyz.Realm.{endpoint_address}
use tyz.Admin.{
  is_given, Response, Work, recompute_tunnel, refuse, respond, patched, patched_some, audit_of,
  record_audit,
}

pub record CreateEndpointInput : Type 0 where
  pub name : Text
  pub host : Text
  pub port : ℕ
  pub note : Option Text

pub record UpdateEndpointInput : Type 0 where
  pub name : Option Text
  pub host : Option Text
  pub port : Option ℕ
  pub note : Option Text

pub record EndpointWithMeta : Type 0 where
  pub entity : Endpoint
  pub rule_count : ℕ

abbrev pub get_endpoint : Database → ℕ → Option Endpoint
get_endpoint db id = find? (λ (e : Endpoint). e.id == id) db.endpoints

abbrev pub references : ℕ → RelayRule → Bool
references id r = elim r.endpoint_id [ none ↦ false | some e ↦ e == id ]

-- `LEFT JOIN relay_rules … GROUP BY endpoints.id`
unfoldable pub list_endpoints : Database → List EndpointWithMeta
list_endpoints db =
    map
      (λ (e : Endpoint). record {
        entity = e;
        rule_count = length (filter (references e.id) db.relay_rules);
      })
      (order_by (λ (e : Endpoint). e.id) db.endpoints)

abbrev pub created_endpoint : CreateEndpointInput → ℕ → Text → Endpoint
created_endpoint input id now = record {
  id = id;
  name = input.name;
  host = input.host;
  port = input.port;
  note = input.note;
  created_at = now;
  updated_at = now;
}

unfoldable pub create_endpoint :
    Option CreateEndpointInput → ℕ → Text → Text → Database → Response Endpoint
unfolding record_audit
create_endpoint none id actor now db = refuse 400 (codes "invalid endpoint payload") db
create_endpoint (some input) id actor now db =
    let row = created_endpoint input id now in
    respond row
      (record_audit now
        (audit_of actor (codes "endpoint.create") (codes "endpoint") (show id) row.name)
        (record db { endpoints = db.endpoints ++ row ∷ [] }))
      []

abbrev pub patched_endpoint : UpdateEndpointInput → Text → Endpoint → Endpoint
patched_endpoint input now old = record old {
  name = patched input.name old.name;
  host = patched input.host old.host;
  port = patched input.port old.port;
  note = patched_some input.note old.note;
  updated_at = now;
}

abbrev pub update_endpoint_row : ℕ → UpdateEndpointInput → Text → Endpoint → Endpoint
update_endpoint_row id input now e = if e.id == id then patched_endpoint input now e else e

-- The host or the port is given and differs.
abbrev pub moves_address : UpdateEndpointInput → Endpoint → Bool
moves_address input existing =
    elim input.host [ none ↦ false | some host ↦ not (host == existing.host) ]
    || elim input.port [ none ↦ false | some port ↦ not (port == existing.port) ]

abbrev pub retarget : ℕ → Text → Text → RelayRule → RelayRule
retarget id address now r =
    if references id r then record r { targets = address; updated_at = now } else r

-- The tunnels of some rules, those without one left out.
unfoldable pub rule_tunnels : List RelayRule → List ℕ
rule_tunnels [] = []
rule_tunnels (r ∷ rules) =
    let rest = rule_tunnels rules in elim r.tunnel_id [ none ↦ rest | some t ↦ t ∷ rest ]

abbrev pub retargeted : ℕ → Text → Text → Database → Database
retargeted id address now db = record db {
  relay_rules = map (retarget id address now) db.relay_rules;
}

unfoldable pub save_endpoint :
    ℕ → UpdateEndpointInput → Endpoint → Text → Database → Database × List Work
unfolding rule_tunnels
save_endpoint id input existing now db =
    let row = patched_endpoint input now existing in
    let saved : Database = record db {
      endpoints = map (update_endpoint_row id input now) db.endpoints;
    } in
    if moves_address input existing
    then (
      retargeted id (endpoint_address row.host row.port) now saved,
      map recompute_tunnel (distinct (rule_tunnels (filter (references id) db.relay_rules))),
    )
    else (saved, [])

unfoldable pub update_endpoint :
    ℕ → Option UpdateEndpointInput → Text → Text → Database → Response Endpoint
unfolding save_endpoint record_audit
update_endpoint id none actor now db = refuse 400 (codes "invalid endpoint payload") db
update_endpoint id (some input) actor now db = elim (get_endpoint db id) [
  | none ↦ refuse 404 (codes "endpoint not found") db
  | some existing ↦
      let row = patched_endpoint input now existing in
      let saved = save_endpoint id input existing now db in
      if not (
        is_given input.name
        || (is_given input.host || (is_given input.port || is_given input.note)))
      then refuse 400 (codes "no fields to update") db
      else respond row
          (record_audit now
            (audit_of actor (codes "endpoint.update") (codes "endpoint") (show id) row.name)
            saved.0)
          saved.1
]

unfoldable pub delete_endpoint : ℕ → Text → Text → Database → Response (Unit {0})
unfolding record_audit
delete_endpoint id actor now db = elim (filter (references id) db.relay_rules) [
  | r ∷ refs ↦
      refuse 409
        (codes "endpoint is referenced by " ++ show (length (r ∷ refs)) ++ codes " rule(s)") db
  | [] ↦ elim (get_endpoint db id) [
    | none ↦ refuse 404 (codes "endpoint not found") db
    | some _ ↦
        respond tt
          (record_audit now
            (audit_of actor (codes "endpoint.delete") (codes "endpoint") (show id) [])
            (record db { endpoints = filter (λ (e : Endpoint). not (e.id == id)) db.endpoints }))
          []
  ]
]
