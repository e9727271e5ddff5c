-- ===== src/Admin/Tunnels.antt =====
-- apps/server/src/routes/admin.ts: the handlers that list, create, change and delete a tunnel.
use tyz.Prelude.{
  ℕ, ◌+◌, Bool, not, ◌&&◌, ◌||◌, Option, none, some, List, [], ◌∷◌, ◌++◌, Text, map, filter, foldl,
  take, length, if◌then◌else◌, ◌==◌, nat_eq, or_else,
}
use tyz.Js.Map
use tyz.Js.Map.{JsMap, distinct}
use tyz.Js.Text.{codes}
use tyz.Entities.{Chain, RelayRule, ForwardMode}
use tyz.Db.{Database, TunnelRow}
use tyz.Db.Statements.{order_by}
use tyz.Admin.{
  is_given, Response, recompute_node, recompute_tunnel, refuse, respond, patched, patched_some,
}
use tyz.Admin.Shape.{get_tunnel, on_tunnel, validate_tunnel_mode, has_tls_domain, no_tls_domain}

pub record CreateTunnelInput : Type 0 where
  pub name : Text
  pub description : Option Text
  pub ingress_display_address : Option Text
  pub tls_enabled : Bool

pub record UpdateTunnelInput : Type 0 where
  pub name : Option Text
  pub description : Option Text
  pub ingress_display_address : Option Text
  pub tls_enabled : Option Bool

-- The entity without the two credential columns, and the number of its links.
pub record TunnelWithMeta : Type 0 where
  pub id : ℕ
  pub name : Text
  pub description : Option Text
  pub ingress_display_address : Option Text
  pub forward_mode : ForwardMode
  pub tls_enabled : Bool
  pub created_at : Text
  pub updated_at : Text
  pub chain_count : ℕ

abbrev pub with_count : TunnelRow → ℕ → TunnelWithMeta
with_count row n = record {
  id = row.id;
  name = row.name;
  description = row.description;
  ingress_display_address = row.ingress_display_address;
  forward_mode = row.forward_mode;
  tls_enabled = row.tls_enabled;
  created_at = row.created_at;
  updated_at = row.updated_at;
  chain_count = n;
}

-- `GROUP BY tunnel_id`
unfoldable pub count_chain : JsMap ℕ ℕ → Chain → JsMap ℕ ℕ
count_chain counts c = Map.set counts c.tunnel_id (or_else (Map.get counts c.tunnel_id) 0 + 1)

unfoldable pub chain_counts : Database → JsMap ℕ ℕ
unfolding count_chain
chain_counts db = foldl count_chain [] db.chains

unfoldable pub list_tunnels : Database → List TunnelWithMeta
unfolding chain_counts
list_tunnels db =
    map (λ (row : TunnelRow). with_count row (or_else (Map.get (chain_counts db) row.id) 0))
      (order_by (λ (row : TunnelRow). row.id) db.tunnels)

-- The tokens are two of `generateNodeToken`.
unfoldable pub created_tunnel : CreateTunnelInput → ℕ → Text → Text → Text → TunnelRow
created_tunnel input id user_token pass_token now = record {
  id = id;
  name = input.name;
  description = input.description;
  ingress_display_address = input.ingress_display_address;
  forward_mode = ForwardMode.raw;
  tls_enabled = input.tls_enabled;
  relay_auth_user = codes "relay-" ++ take 8 user_token;
  relay_auth_pass = pass_token;
  created_at = now;
  updated_at = now;
}

unfoldable pub create_tunnel :
    Option CreateTunnelInput → ℕ → Text → Text → Text → Database → Response TunnelWithMeta
unfolding created_tunnel
create_tunnel none id user_token pass_token now db = refuse 400 (codes "invalid tunnel payload") db
create_tunnel (some input) id user_token pass_token now db =
    let row = created_tunnel input id user_token pass_token now in
    if input.tls_enabled && not (has_tls_domain db)
    then refuse 400 no_tls_domain db
    else respond (with_count row 0) (record db { tunnels = db.tunnels ++ row ∷ [] }) []

-- Some field is there to update.
unfoldable pub changes_tunnel : UpdateTunnelInput → Bool
changes_tunnel input =
    is_given input.name
    || (is_given input.description
        || (is_given input.ingress_display_address || is_given input.tls_enabled))

unfoldable pub mode_problem : Database → ℕ → UpdateTunnelInput → Option Text
unfolding validate_tunnel_mode
mode_problem db id input = elim input.tls_enabled [
  | none ↦ none
  | some tls_enabled ↦ validate_tunnel_mode db id tls_enabled
]

abbrev pub patched_tunnel : UpdateTunnelInput → Text → TunnelRow → TunnelRow
patched_tunnel input now old = record old {
  name = patched input.name old.name;
  description = patched_some input.description old.description;
  ingress_display_address = patched_some input.ingress_display_address old.ingress_display_address;
  tls_enabled = patched input.tls_enabled old.tls_enabled;
  updated_at = now;
}

abbrev pub update_tunnel_row : ℕ → UpdateTunnelInput → Text → TunnelRow → TunnelRow
update_tunnel_row id input now row = if row.id == id then patched_tunnel input now row else row

unfoldable pub update_tunnel :
    ℕ → Option UpdateTunnelInput → Text → Database → Response (Option TunnelWithMeta)
unfolding mode_problem changes_tunnel
update_tunnel id none now db = refuse 400 (codes "invalid tunnel payload") db
update_tunnel id (some input) now db =
    let saved : Database = record db {
      tunnels = map (update_tunnel_row id input now) db.tunnels;
    } in
    let answer : Option TunnelWithMeta = elim (get_tunnel saved id) [
      | none ↦ none
      | some row ↦ some (with_count row (length (filter (on_tunnel id) saved.chains)))
    ] in
    elim (mode_problem db id input) [
      | some problem ↦ refuse 400 problem db
      | none ↦
          if not (changes_tunnel input)
          then refuse 400 (codes "no fields to update") db
          else elim (get_tunnel db id) [
            | none ↦ refuse 404 (codes "tunnel not found") db
            | some _ ↦ respond answer saved (recompute_tunnel id ∷ [])
          ]
    ]

-- `ON DELETE SET NULL`
abbrev pub unlink_tunnel : ℕ → RelayRule → RelayRule
unlink_tunnel id r = elim r.tunnel_id [
  | none ↦ r
  | some t ↦ if t == id then record r { tunnel_id = none } else r
]

-- The links go with the tunnel, the rules lose it.
unfoldable pub without_tunnel : ℕ → Database → Database
without_tunnel id db = record db {
  tunnels = filter (λ (row : TunnelRow). not (row.id == id)) db.tunnels;
  chains = filter (λ (c : Chain). not (on_tunnel id c)) db.chains;
  relay_rules = map (unlink_tunnel id) db.relay_rules;
}

unfoldable pub delete_tunnel : ℕ → Database → Response (Unit {0})
unfolding without_tunnel
delete_tunnel id db = elim (get_tunnel db id) [
  | none ↦ refuse 404 (codes "tunnel not found") db
  | some _ ↦ respond tt (without_tunnel id db) (
      map recompute_node
        (distinct (map (λ (c : Chain). c.node_id) (filter (on_tunnel id) db.chains))))
]
