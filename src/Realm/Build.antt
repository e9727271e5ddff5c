-- ===== src/Realm/Build.antt =====
-- apps/server/src/db/repo.ts: `buildRealmNodeConfig`, the config of one node, from its rendered
-- services. The order of names (`localeCompare`) is a parameter.
use tyz.Prelude.{
  ℕ, Bool, true, false, Option, none, some, List, [], ◌∷◌, Text, ltb, foldl, map, if◌then◌else◌,
  nat_eq,
}
use tyz.Js.Map.{distinct, index_by}
use tyz.Entities.{RelayNode, Chain, RealmService, RealmNodeConfig, TlsMaterial}
use tyz.Db.{Database, NodeRow}
use tyz.Quota.{apply_rule_quotas}
use tyz.Tls.{Issuer, ensure_tls_material}
use tyz.Realm.Render.{
  Rendered, render_tunnel, get_node, get_nodes_by_ids, get_chains_for_node, get_tunnels_by_ids,
  get_chains_for_tunnels, get_rules_for_tunnels,
}

pub data Comparison : Type 0 where
  less equal greater : Comparison

module _ (locale_compare : Text → Text → Comparison) where
  -- `a.name.localeCompare(b.name) || a.listen_port - b.listen_port` is positive
  unfoldable pub sorts_after : RealmService → RealmService → Bool
  sorts_after a b = elim (locale_compare a.name b.name) [
    | less ↦ false
    | equal ↦ ltb b.listen_port a.listen_port
    | greater ↦ true
  ]

  unfoldable pub insert_service : RealmService → List RealmService → List RealmService
  unfolding sorts_after
  insert_service s [] = s ∷ []
  insert_service s (t ∷ services) =
      let rest = insert_service s services in if sorts_after s t then t ∷ rest else s ∷ t ∷ services

  -- `services.sort`, stable
  unfoldable pub sort_services : List RealmService → List RealmService
  unfolding insert_service
  sort_services [] = []
  sort_services (s ∷ services) = insert_service s (sort_services services)

-- `delete s.tls_side`
abbrev pub drop_tls : RealmService → RealmService
drop_tls s = record s { tls_side = none }

unfoldable pub render_tunnels : Database → NodeRow → Text → Rendered
unfolding render_tunnel apply_rule_quotas
render_tunnels db node now =
    let tunnel_ids = distinct (map (λ (c : Chain). c.tunnel_id) (get_chains_for_node db node.id)) in
    let rules = apply_rule_quotas db (get_rules_for_tunnels db tunnel_ids) now in
    let all_chains = get_chains_for_tunnels db tunnel_ids in
    let node_recs = get_nodes_by_ids db (distinct (map (λ (c : Chain). c.node_id) all_chains)) in
    let node_by_id = index_by (λ (n : RelayNode). n.id) (λ n. n) node_recs in
    foldl (render_tunnel node.entity node_by_id all_chains rules)
      (record { services = []; tls_wanted = false }) (get_tunnels_by_ids db tunnel_ids)

abbrev pub config_of : NodeRow → List RealmService → Option TlsMaterial → RealmNodeConfig
config_of node services material = record {
  node_id = node.id;
  node_name = node.name;
  services = services;
  tls_material = material;
}

-- TLS material that cannot be had degrades every leg to plaintext.
abbrev pub attach_material :
    NodeRow → List RealmService → Option TlsMaterial × Database → RealmNodeConfig × Database
attach_material node services (some material, db) = (config_of node services (some material), db)
attach_material node services (none, db) = (config_of node (map drop_tls services) none, db)

module _ (issuer : Issuer) (locale_compare : Text → Text → Comparison) where
  unfoldable pub config_for : Database → NodeRow → Text → RealmNodeConfig × Database
  unfolding render_tunnels sort_services ensure_tls_material
  config_for db node now =
      let rendered = render_tunnels db node now in
      let services = sort_services locale_compare rendered.services in
      if rendered.tls_wanted
      then attach_material node services (ensure_tls_material issuer db now)
      else (config_of node services none, db)

  -- `none` if the node is not there; the database, since TLS material may be issued.
  unfoldable pub build_realm_node_config : Database → ℕ → Text → Option RealmNodeConfig × Database
  unfolding config_for
  build_realm_node_config db node_id now = elim (get_node db node_id) [
    | none ↦ (none, db)
    | some node ↦ let built = config_for db node now in (some built.0, built.1)
  ]
