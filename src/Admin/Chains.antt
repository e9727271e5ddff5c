-- ===== src/Admin/Chains.antt =====
-- apps/server/src/routes/admin.ts: the handlers that create, change and delete a tunnel's links.
use tyz.Prelude.{
  ℕ, ◌+◌, ◌-◌, Bool, true, false, not, ◌&&◌, Option, none, some, List, [], ◌∷◌, ◌++◌, Text, map,
  filter, find?, any, if◌then◌else◌, ◌==◌, nat_eq,
}
use tyz.Js.Text.{codes}
use tyz.Entities.{Chain, ChainType, in_link, chain_link, out_link, Transport}
use tyz.Db.{Database, NodeRow}
use tyz.Db.Statements.{order_by}
use tyz.Admin.{Response, Work, recompute_tunnel, refuse, internal_error, respond, patched}
use tyz.Admin.Shape.{TunnelShape, get_tunnel, tunnel_shape, validate_projected_shape, on_tunnel}

pub record CreateChainInput : Type 0 where
  pub tunnel_id : ℕ
  pub node_id : ℕ
  pub chain_type : ChainType
  pub transport : Transport
  pub index : ℕ
  pub strategy : Text
  pub port : ℕ

pub record UpdateChainInput : Type 0 where
  pub tunnel_id : Option ℕ
  pub node_id : Option ℕ
  pub chain_type : Option ChainType
  pub transport : Option Transport
  pub index : Option ℕ
  pub strategy : Option Text
  pub port : Option ℕ

abbrev pub get_chain : Database → ℕ → Option Chain
get_chain db id = find? (λ (c : Chain). c.id == id) db.chains

abbrev pub is_in_type : ChainType → Bool
is_in_type t = elim t [ in_link ↦ true | chain_link ↦ false | out_link ↦ false ]

abbrev pub is_out_type : ChainType → Bool
is_out_type t = elim t [ in_link ↦ false | chain_link ↦ false | out_link ↦ true ]

-- A row that the foreign key may name.
abbrev pub node_exists : Database → ℕ → Bool
node_exists db id = any (λ (row : NodeRow). row.id == id) db.relay_nodes

-- A column that the update leaves out is not checked.
abbrev pub may_reference : Database → Option ℕ → Bool
may_reference db none = true
may_reference db (some id) = node_exists db id

unfoldable pub list_chains : Database → ℕ → List Chain
list_chains db tunnel_id =
    order_by (λ (c : Chain). c.index) (filter (on_tunnel tunnel_id) db.chains)

-- A shape with one more link.
unfoldable pub with_link : TunnelShape → ChainType → Transport → TunnelShape
with_link shape chain_type transport = record {
  total = shape.total + 1;
  ins = if is_in_type chain_type then shape.ins + 1 else shape.ins;
  outs = if is_out_type chain_type then shape.outs + 1 else shape.outs;
  out_transport = if is_out_type chain_type then some transport else shape.out_transport;
}

-- A shape without a link that it counts.
unfoldable pub without_link : TunnelShape → ChainType → TunnelShape
without_link shape chain_type = record shape {
  total = shape.total - 1;
  ins = if is_in_type chain_type then shape.ins - 1 else shape.ins;
  outs = if is_out_type chain_type then shape.outs - 1 else shape.outs;
}

-- The id is the one that the database gives to the row.
unfoldable pub created_chain : CreateChainInput → ℕ → Text → Chain
created_chain input id now = record {
  id = id;
  tunnel_id = input.tunnel_id;
  node_id = input.node_id;
  chain_type = input.chain_type;
  transport = input.transport;
  index = input.index;
  strategy = input.strategy;
  port = if is_in_type input.chain_type then 0 else input.port;
  created_at = now;
  updated_at = now;
}

unfoldable pub create_chain : Option CreateChainInput → ℕ → Text → Database → Response Chain
unfolding with_link tunnel_shape validate_projected_shape created_chain
create_chain none id now db = refuse 400 (codes "invalid chain payload") db
create_chain (some input) id now db =
    let projected = with_link (tunnel_shape db input.tunnel_id) input.chain_type input.transport in
    let chain = created_chain input id now in
    elim (validate_projected_shape db input.tunnel_id projected) [
      | some problem ↦ refuse 400 problem db
      | none ↦
          if node_exists db input.node_id
          then respond chain (record db { chains = db.chains ++ chain ∷ [] })
              (recompute_tunnel input.tunnel_id ∷ [])
          else internal_error db
    ]

unfoldable pub patched_chain : UpdateChainInput → Text → Chain → Chain
patched_chain input now old =
    let next_type = patched input.chain_type old.chain_type in
    record old {
      tunnel_id = patched input.tunnel_id old.tunnel_id;
      node_id = patched input.node_id old.node_id;
      chain_type = next_type;
      transport = patched input.transport old.transport;
      index = patched input.index old.index;
      strategy = patched input.strategy old.strategy;
      port = if is_in_type next_type then 0 else patched input.port old.port;
      updated_at = now;
    }

-- The shape that the update would leave on the tunnel it names.
unfoldable pub projected_shape : Database → UpdateChainInput → Chain → TunnelShape
unfolding with_link without_link tunnel_shape
projected_shape db input existing =
    let target = patched input.tunnel_id existing.tunnel_id in
    let shape = tunnel_shape db target in
    with_link
      (if target == existing.tunnel_id then without_link shape existing.chain_type else shape)
      (patched input.chain_type existing.chain_type) (patched input.transport existing.transport)

-- The tunnels that the link leaves and enters.
abbrev pub moved_work : UpdateChainInput → Chain → List Work
moved_work input existing = recompute_tunnel existing.tunnel_id ∷ elim input.tunnel_id [
  | none ↦ []
  | some t ↦ if t == existing.tunnel_id then [] else recompute_tunnel t ∷ []
]

abbrev pub update_chain_row : ℕ → UpdateChainInput → Text → Database → Database
update_chain_row id input now db = record db {
  chains = map (λ (c : Chain). if c.id == id then patched_chain input now c else c) db.chains;
}

unfoldable pub update_chain :
    ℕ → Option UpdateChainInput → Text → Database → Response (Option Chain)
unfolding projected_shape validate_projected_shape patched_chain
update_chain id none now db = refuse 400 (codes "invalid chain payload") db
update_chain id (some input) now db = elim (get_chain db id) [
  | none ↦ refuse 404 (codes "chain not found") db
  | some existing ↦
      let saved = update_chain_row id input now db in
      elim (validate_projected_shape db (patched input.tunnel_id existing.tunnel_id)
        (projected_shape db input existing)) [
          | some problem ↦ refuse 400 problem db
          | none ↦
              if may_reference db input.node_id
              then respond (get_chain saved id) saved (moved_work input existing)
              else internal_error db
        ]
]

-- Both sides of a TLS link stand.
unfoldable pub is_complete_tls : Database → ℕ → Bool
unfolding tunnel_shape
is_complete_tls db tunnel_id =
    let shape = tunnel_shape db tunnel_id in
    elim (get_tunnel db tunnel_id) [
      | none ↦ false
      | some row ↦ row.tls_enabled && ((shape.ins == 1) && (shape.outs == 1))
    ]

unfoldable pub delete_chain : ℕ → Database → Response (Unit {0})
unfolding is_complete_tls
delete_chain id db = elim (get_chain db id) [
  | none ↦ refuse 404 (codes "chain not found") db
  | some existing ↦
      if is_complete_tls db existing.tunnel_id
      then refuse 400 (codes "TLS 隧道必须保持两节点形态，请先关闭 TLS 再删除链路") db
      else respond tt (record db { chains = filter (λ (c : Chain). not (c.id == id)) db.chains })
          (recompute_tunnel existing.tunnel_id ∷ [])
]
