-- ===== src/Admin/Nodes.antt =====
-- apps/server/src/routes/admin.ts: the handlers of the nodes. A token is a parameter, 32 random
-- hexadecimal digits, which the database's unique index is taken to accept.
use tyz.Prelude.{
  ℕ, ◌-◌, Bool, not, ◌||◌, Option, none, some, List, [], ◌∷◌, ◌++◌, Text, map, filter, find?, drop,
  length, if◌then◌else◌, ◌==◌, nat_eq, or_else,
}
use tyz.Js.Map.{distinct}
use tyz.Js.Text.{codes}
use tyz.Js.Text.Decimal.{show}
use tyz.Entities.{RelayNode, Chain, Milli}
use tyz.Db.{Database, NodeRow, NodeConfigRow, GostStatsRow, HealthRow, CounterRow}
use tyz.Db.Statements.{order_by}
use tyz.Realm.Render.{get_node}
use tyz.Admin.{
  is_given, Answer, refused, answered, Response, recompute_node, recompute_tunnel, refuse, respond,
  patched, patched_some, audit_of, record_audit,
}

pub record CreateNodeInput : Type 0 where
  pub name : Text
  pub description : Option Text
  pub address : Text
  pub display_address : Option Text
  pub version : Option Text
  pub level : ℕ
  pub is_public : Bool
  pub ports : Text
  pub traffic_limit : ℕ
  pub rate : Milli
  pub custom_cfg : Option Text
  pub tls_config : Option Text

pub record UpdateNodeInput : Type 0 where
  pub name : Option Text
  pub description : Option Text
  pub address : Option Text
  pub display_address : Option Text
  pub version : Option Text
  pub level : Option ℕ
  pub is_public : Option Bool
  pub ports : Option Text
  pub traffic_limit : Option ℕ
  pub rate : Option Milli
  pub custom_cfg : Option Text
  pub tls_config : Option Text

-- The public columns, the version of the stored config and the end of the token.
pub record NodeWithMeta : Type 0 where
  pub entity : RelayNode
  pub config_version : Option ℕ
  pub token_hint : Text

abbrev with_meta : Database → NodeRow → NodeWithMeta
with_meta db row = record {
  entity = row.entity;
  config_version = elim (find? (λ (s : NodeConfigRow). s.node_id == row.id) db.node_configs) [
    | none ↦ none
    | some s ↦ some s.version
  ];
  token_hint = row.token_hint;
}

unfoldable pub node_with_meta : Database → ℕ → Option NodeWithMeta
node_with_meta db id = elim (get_node db id) [ none ↦ none | some row ↦ some (with_meta db row) ]

unfoldable pub list_nodes : Database → List NodeWithMeta
list_nodes db = map (with_meta db) (order_by (λ (row : NodeRow). row.id) db.relay_nodes)

unfoldable pub show_node : Database → ℕ → Answer NodeWithMeta
unfolding node_with_meta
show_node db id = elim (node_with_meta db id) [
  | none ↦ refused 404 (codes "node not found")
  | some node ↦ answered node
]

-- `token.slice(-4)`
abbrev pub last_four : Text → Text
last_four token = drop (length token - 4) token

abbrev created_node : CreateNodeInput → ℕ → Text → Text → NodeRow
created_node input id token now = record {
  entity = record {
    id = id;
    name = input.name;
    description = input.description;
    address = input.address;
    display_address = input.display_address;
    level = input.level;
    is_public = input.is_public;
    version = input.version;
    egress_traffic = 0;
    ingress_traffic = 0;
    traffic_limit = input.traffic_limit;
    rate = input.rate;
    ports = input.ports;
    custom_cfg = input.custom_cfg;
    created_at = now;
    updated_at = now;
  };
  token = token;
  token_hint = last_four token;
  tls_config = input.tls_config;
}

unfoldable pub create_node :
    Option CreateNodeInput
    → ℕ
    → Text
    → Text
    → Text
    → Database
    → Response (Option NodeWithMeta × Text)
unfolding record_audit node_with_meta
create_node none id token actor now db = refuse 400 (codes "invalid node payload") db
create_node (some input) id token actor now db =
    let saved : Database = record db {
      relay_nodes = db.relay_nodes ++ created_node input id token now ∷ [];
    } in
    respond (node_with_meta saved id, token)
      (record_audit now (audit_of actor (codes "node.create") (codes "node") (show id) input.name)
        saved)
      (recompute_node id ∷ [])

unfoldable pub changes_node : UpdateNodeInput → Bool
changes_node input =
    is_given input.name
    || is_given input.description
    || is_given input.address
    || is_given input.display_address
    || is_given input.version
    || is_given input.level
    || is_given input.is_public
    || is_given input.ports
    || is_given input.traffic_limit
    || is_given input.rate
    || is_given input.custom_cfg
    || is_given input.tls_config

abbrev pub patched_node : UpdateNodeInput → Text → NodeRow → NodeRow
patched_node input now old = record old {
  entity = record old.entity {
    name = patched input.name old.name;
    description = patched_some input.description old.description;
    address = patched input.address old.address;
    display_address = patched_some input.display_address old.display_address;
    version = patched_some input.version old.version;
    level = patched input.level old.level;
    is_public = patched input.is_public old.is_public;
    ports = patched input.ports old.ports;
    traffic_limit = patched input.traffic_limit old.traffic_limit;
    rate = patched input.rate old.rate;
    custom_cfg = patched_some input.custom_cfg old.custom_cfg;
    updated_at = now;
  };
  tls_config = patched_some input.tls_config old.tls_config;
}

-- A node that is missing is audited and recomputed all the same, and only then answered with 404.
unfoldable pub update_node :
    ℕ → Option UpdateNodeInput → Text → Text → Database → Response NodeWithMeta
unfolding changes_node node_with_meta record_audit
update_node id none actor now db = refuse 400 (codes "invalid node payload") db
update_node id (some input) actor now db =
    let saved : Database = record db {
      relay_nodes =
          map (λ (row : NodeRow). if row.id == id then patched_node input now row else row)
            db.relay_nodes;
    } in
    if not (changes_node input) then refuse 400 (codes "no fields to update") db else record {
      answer = elim (node_with_meta saved id) [
        | none ↦ refused 404 (codes "node not found")
        | some node ↦ answered node
      ];
      db =
          record_audit now
            (audit_of actor (codes "node.update") (codes "node") (show id) (or_else input.name []))
            saved;
      work = recompute_node id ∷ [];
    }

-- `ON DELETE CASCADE`
unfoldable pub without_node : ℕ → Database → Database
without_node id db = record db {
  relay_nodes = filter (λ (row : NodeRow). not (row.id == id)) db.relay_nodes;
  chains = filter (λ (c : Chain). not (c.node_id == id)) db.chains;
  node_configs = filter (λ (s : NodeConfigRow). not (s.node_id == id)) db.node_configs;
  gost_stats = filter (λ (s : GostStatsRow). not (s.node_id == id)) db.gost_stats;
  service_health = filter (λ (s : HealthRow). not (s.node_id == id)) db.service_health;
  traffic_counters = filter (λ (s : CounterRow). not (s.node_id == id)) db.traffic_counters;
}

unfoldable pub delete_node : ℕ → Text → Text → Database → Response (Unit {0})
unfolding without_node record_audit
delete_node id actor now db = elim (get_node db id) [
  | none ↦ refuse 404 (codes "node not found") db
  | some _ ↦
      respond tt
        (record_audit now (audit_of actor (codes "node.delete") (codes "node") (show id) [])
          (without_node id db))
        (map recompute_tunnel (
          distinct
            (map (λ (c : Chain). c.tunnel_id) (filter (λ (c : Chain). c.node_id == id) db.chains))))
]

abbrev pub rotated : ℕ → Text → Text → NodeRow → NodeRow
rotated id token now row =
    if row.id == id
    then record row {
      entity = record row.entity { updated_at = now };
      token = token;
      token_hint = last_four token;
    }
    else row

unfoldable pub rotate_token : ℕ → Text → Text → Text → Database → Response (ℕ × Text)
unfolding record_audit
rotate_token id token actor now db = elim (get_node db id) [
  | none ↦ refuse 404 (codes "node not found") db
  | some _ ↦
      respond (id, token)
        (record_audit now (audit_of actor (codes "node.rotate_token") (codes "node") (show id) [])
          (record db { relay_nodes = map (rotated id token now) db.relay_nodes }))
        []
]

unfoldable pub reveal_token : Database → ℕ → Answer Text
reveal_token db id = elim (get_node db id) [
  | none ↦ refused 404 (codes "node not found")
  | some row ↦ answered row.token
]
