-- ===== src/Tests/RealmRuns.antt =====
-- The config of node 1, its ports and its snapshot.
use tyz.Prelude.{
  ℕ, ◌≤◌, ◌<◌, ◌≡◌, refl, true, Option, some, none, [], ◌∷◌, Text, All, nat_eq, text_eq, arith,
  length, if◌then◌else◌, ◌==◌, List,
}
use tyz.Js.Map
use tyz.Js.Map.{JsMap, distinct, index_by}
use tyz.Js.Text.{codes, text_le}
use tyz.Js.Text.Decimal.{show}
use tyz.Js.Text.Decimal
use tyz.Js.Number
use tyz.Entities.{RelayNode, RealmService, RealmNodeConfig, out_link, TlsSide, listen, in_link}
use tyz.Db.{Database, NodeConfigRow, TunnelRow}
use tyz.Realm.{
  service_limit_of, port_range, allocate_port_for_rule, endpoint_address, exit_port_on,
  exit_target_for, parse_target_address,
}
use tyz.Realm.Ports.{allocate_port_for_rule-le}
use tyz.Realm.Addresses.{parse_target_address-endpoint_address}
use tyz.Realm.Render.{
  entry_service, exit_service, forward, has_tls_link, get_chains_for_tunnels, render_ends,
  is_on_tunnel,
}
use tyz.Realm.Legs.{nothing, AreEnds, render_tunnel-AreEnds}
use tyz.Realm.Render.{render_tunnel, render_rules, render_entry, render_exit}
use tyz.Db.Statements.{order_by}
use tyz.Traffic.{service_name}
use tyz.Quota.{
  quota_for_user, get_user_statuses, get_active_subscriptions, user_usage_bytes, apply_rule_quotas,
  quota_decisions_for_users,
}
use tyz.Realm.Build.{
  render_tunnels, sort_services, sorts_after, Comparison, less, equal, greater,
  build_realm_node_config,
}
use tyz.Realm.Allowed.{
  IsAllowedService, build_realm_node_config-IsAllowedService, build_realm_node_config-IsPlain,
}
use tyz.Realm.Snapshot.{
  get_node_config_snapshot, upsert_node_config_snapshot, recompute_node_config,
}
use tyz.Realm.Recompute.{
  version_of, HasSnapshot, Recomputed, upsert_node_config_snapshot-version,
  recompute_node_config-Recomputed,
}
use tyz.Realm.Fanout.{recompute_tunnel_nodes}
use tyz.Realm.Notified.{IsKept, recompute_tunnel_nodes-IsKept}
use tyz.Tests.TlsRuns.{issuer}
use tyz.Tests.Fixtures.{time, db, node, link, rule, tunnel}

allocate_port_for_rule-le_example :
    (range : ℕ × ℕ) × (port_range (codes "20000-20100") ≡ some range)
    × (range.0 ≤ 20071)
    × (20071 ≤ range.1)
    × (1 ≤ 20071)
    × (20071 ≤ 65535)
unfolding allocate_port_for_rule Decimal.is_digits Decimal.number
allocate_port_for_rule-le_example = allocate_port_for_rule-le (codes "20000-20100") 100 1 20071 refl

parse_target_address-endpoint_address_example :
    parse_target_address (endpoint_address (codes "fd00::1") 8443)
    ≡ some (record { host = codes "fd00::1"; port = 8443 })
parse_target_address-endpoint_address_example =
    parse_target_address-endpoint_address b'f' (codes "d00::1") 8443 refl (omega arith)
      (omega arith)

-- Node 1 enters the link, node 2 leaves it, each with its own range of ports.
abbrev entry_node : RelayNode
entry_node = (node 1 (codes "20000-20100")).entity

abbrev exit_node : RelayNode
exit_node = (node 2 (codes "30000-30100")).entity

abbrev nodes : JsMap ℕ RelayNode
nodes = (1, entry_node) ∷ (2, exit_node) ∷ []

abbrev leg : ℕ → Text → ℕ → Option TlsSide → RealmService
leg listen_port target_host target_port side =
    forward (rule 100 10 (some 9)) listen_port (record { host = target_host; port = target_port })
      side

abbrev left : RealmService
left = leg 30072 (codes "web.example.org") 443 (some listen)

abbrev tls_tunnel : TunnelRow
tls_tunnel = tunnel 10 true

render_tunnel-AreEnds_example :
    (entry_leg : RealmService) × (others : List RealmService) × ((render_tunnel entry_node nodes
        (get_chains_for_tunnels db (10 ∷ []))
        (rule 100 10 (some 9) ∷ [])
        nothing
        tls_tunnel).services
      ≡ entry_leg ∷ others)
    × AreEnds exit_node (has_tls_link true (link 2 10 2 out_link ∷ [])) entry_leg left
unfolding render_tunnel render_ends render_rules render_entry render_exit is_on_tunnel entry_service
    exit_service exit_target_for exit_port_on allocate_port_for_rule parse_target_address
    Decimal.number Map.get Decimal.is_digits Number.to_number order_by
render_tunnel-AreEnds_example =
    render_tunnel-AreEnds db tls_tunnel (link 1 10 1 in_link) (link 2 10 2 out_link) [] refl refl
      refl (rule 100 10 (some 9)) refl entry_node exit_node nodes nodes (10 ∷ []) (11 ∷ 10 ∷ [])
      left refl refl refl refl refl refl refl refl

abbrev pub by_code : Text → Text → Comparison
by_code a b = if a == b then equal else if text_le a b then less else greater

abbrev pub summary : RealmNodeConfig → Text
summary config = show (length config.services)

recompute_node_config-Recomputed_example :
    Recomputed issuer by_code summary
      (build_realm_node_config issuer by_code db 1 time).0
      (get_node_config_snapshot db 1)
      1
      (recompute_node_config issuer by_code summary db 1 1786854000 time)
recompute_node_config-Recomputed_example =
    recompute_node_config-Recomputed issuer by_code summary db 1 1786854000 time

abbrev stored : NodeConfigRow
stored = record { node_id = 1; version = 1786854007; config_json = codes "{}"; updated_at = time }

abbrev with_snapshot : Database
with_snapshot = record db { node_configs = stored ∷ [] }

-- The clock stands before the stored version.
upsert_node_config_snapshot-version_example :
    let written = upsert_node_config_snapshot with_snapshot 1 (codes "[]") 1786854000 time in
    (1786854000 ≤ version_of (get_node_config_snapshot written 1))
    × (1786854007 < version_of (get_node_config_snapshot written 1))
    × HasSnapshot (get_node_config_snapshot written 1) (codes "[]")
    × (get_node_config_snapshot written 2 ≡ get_node_config_snapshot with_snapshot 2)
unfolding get_node_config_snapshot
upsert_node_config_snapshot-version_example =
    upsert_node_config_snapshot-version with_snapshot 1 2 (codes "[]") 1786854000 time stored refl
      refl

build : Unit {0}
unfolding build_realm_node_config render_tunnels render_tunnel render_rules render_entry render_exit
    entry_service exit_service exit_target_for exit_port_on allocate_port_for_rule
    parse_target_address sort_services sorts_after apply_rule_quotas quota_decisions_for_users
    Decimal.is_digits Decimal.number Map.get Map.set distinct order_by index_by Number.to_number
    quota_for_user get_user_statuses get_active_subscriptions user_usage_bytes service_name
    Decimal.show service_limit_of
build = tt

-- What is built for node 1: the entry leg, and the exit leg that the entry node has as well.
abbrev built : RealmNodeConfig
built = record {
  node_id = 1;
  node_name = codes "node";
  services =
      leg 16500 (codes "10.0.0.2") 30072 none ∷ leg 20071 (codes "web.example.org") 443 none ∷ [];
  tls_material = none;
}

build_realm_node_config-IsAllowedService_example : All (IsAllowedService db time) built.services
unfolding build
build_realm_node_config-IsAllowedService_example =
    build_realm_node_config-IsAllowedService issuer by_code db 1 time built refl

build_realm_node_config-IsPlain_example :
    All (λ (s : RealmService). s.tls_side ≡ none) built.services
unfolding build
build_realm_node_config-IsPlain_example =
    build_realm_node_config-IsPlain issuer by_code db 1 time built refl refl

-- Node 1 has the snapshot that it would get again, node 2 has none.
abbrev up_to_date : Database
up_to_date = record db {
  node_configs =
      record { node_id = 1; version = 7; config_json = codes "2"; updated_at = time } ∷ [];
}

recompute_tunnel_nodes-IsKept_example : IsKept (get_node_config_snapshot up_to_date 1) (
    get_node_config_snapshot
      (recompute_tunnel_nodes issuer by_code summary 1786854000 time up_to_date 10).0
      1)
unfolding build recompute_tunnel_nodes recompute_node_config Decimal.show
recompute_tunnel_nodes-IsKept_example =
    recompute_tunnel_nodes-IsKept issuer by_code summary 1786854000 time up_to_date 10 1 refl
