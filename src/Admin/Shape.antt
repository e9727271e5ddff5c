-- ===== src/Admin/Shape.antt =====
-- apps/server/src/routes/admin.ts: the shape of a tunnel's links, and the rules that it must obey.
use tyz.Prelude.{
  ℕ, Bool, true, false, not, ◌&&◌, Option, none, some, List, [], ◌∷◌, ◌++◌, Text, length, filter,
  find?, ltb, if◌then◌else◌, ◌==◌, nat_eq,
}
use tyz.Js.Text.{codes}
use tyz.Js.Text.Decimal.{show}
use tyz.Entities.{Chain, Transport}
use tyz.Db.{Database, TunnelRow}
use tyz.Realm.Render.{is_in, is_out}
use tyz.Tls.{get_tls_domain}

pub record TunnelShape : Type 0 where
  pub total : ℕ
  pub ins : ℕ
  pub outs : ℕ
  pub out_transport : Option Transport

abbrev pub get_tunnel : Database → ℕ → Option TunnelRow
get_tunnel db id = find? (λ (row : TunnelRow). row.id == id) db.tunnels

abbrev pub on_tunnel : ℕ → Chain → Bool
on_tunnel tunnel_id c = c.tunnel_id == tunnel_id

-- `outs[0]?.transport ?? null`
abbrev pub first_transport : List Chain → Option Transport
first_transport [] = none
first_transport (out ∷ outs) = some out.transport

unfoldable pub shape_of : List Chain → TunnelShape
shape_of rows = record {
  total = length rows;
  ins = length (filter is_in rows);
  outs = length (filter is_out rows);
  out_transport = first_transport (filter is_out rows);
}

unfoldable pub tunnel_shape : Database → ℕ → TunnelShape
unfolding shape_of
tunnel_shape db tunnel_id = shape_of (filter (on_tunnel tunnel_id) db.chains)

-- `TLS_LINK_TRANSPORTS.has`
abbrev pub is_tls_link : Transport → Bool
is_tls_link Transport.raw = false
is_tls_link Transport.ws = false
is_tls_link Transport.tls = true
is_tls_link Transport.grpc = false
is_tls_link Transport.wss = false
is_tls_link Transport.mtls = false
is_tls_link Transport.mwss = false

abbrev pub is_tls_transport : Option Transport → Bool
is_tls_transport none = false
is_tls_transport (some t) = is_tls_link t

unfoldable pub tls_shape_problem : TunnelShape → Option Text
tls_shape_problem shape =
    if ltb 1 shape.ins
    then some (codes "TLS 隧道只允许一条入口链路")
    else if ltb 1 shape.outs
    then some (codes "TLS 隧道只允许一条出口链路")
    else if (shape.outs == 1) && not (is_tls_transport shape.out_transport)
    then some (codes "TLS 要求出口链路的传输为 tls")
    else none

abbrev pub tunnel_not_found : ℕ → Text
tunnel_not_found id = codes "tunnel " ++ show id ++ codes " not found"

abbrev pub no_tls_domain : Text
no_tls_domain = codes "请先在设置中配置 TLS 伪装域名"

-- `!(await getTlsDomain(db))`: an empty setting is no domain either.
abbrev pub has_tls_domain : Database → Bool
has_tls_domain db = elim (get_tls_domain db) [
  | none ↦ false
  | some [] ↦ false
  | some (_ ∷ _) ↦ true
]

unfoldable pub validate_tunnel_mode : Database → ℕ → Bool → Option Text
unfolding tunnel_shape tls_shape_problem get_tls_domain
validate_tunnel_mode db tunnel_id tls_enabled =
    let shape = tunnel_shape db tunnel_id in
    elim (get_tunnel db tunnel_id) [
      | none ↦ some (tunnel_not_found tunnel_id)
      | some row ↦
          if not tls_enabled
          then none
          else if shape.total == 0
          then none
          else elim (tls_shape_problem shape) [
            | some problem ↦ some problem
            | none ↦ if has_tls_domain db then none else some no_tls_domain
          ]
    ]

unfoldable pub validate_projected_shape : Database → ℕ → TunnelShape → Option Text
unfolding tls_shape_problem
validate_projected_shape db tunnel_id shape = elim (get_tunnel db tunnel_id) [
  | none ↦ some (tunnel_not_found tunnel_id)
  | some row ↦
      if ltb 1 shape.ins
      then some (codes "隧道只允许一条入口链路")
      else if row.tls_enabled && ltb 0 shape.total
      then tls_shape_problem shape
      else none
]
