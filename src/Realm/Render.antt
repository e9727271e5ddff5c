-- ===== src/Realm/Render.antt =====
-- apps/server/src/db/repo.ts: the loops of `buildRealmNodeConfig`,
-- which render the services of one node, and the queries that it reads.
use tyz.Prelude.{
  ℕ, Bool, true, false, not, ◌&&◌, ◌||◌, Option, none, some, List, [], ◌∷◌, ◌++◌, Text, foldl, map,
  if◌then◌else◌, ◌==◌, nat_eq, text_eq, any, filter, find?, take, or_else,
}
use tyz.Js.Text.{codes}
use tyz.Js.Map
use tyz.Js.Map.{JsMap, has, distinct, index_by}
use tyz.Entities.{
  RelayNode, RelayRule, Chain, in_link, chain_link, out_link, Transport, RealmTarget, RealmService,
  Balance, roundrobin, iphash, TlsSide, listen, connect,
}
use tyz.Db.{Database, NodeRow, TunnelRow}
use tyz.Db.Statements.{order_by}
use tyz.Traffic.{service_name}
use tyz.Realm.{parse_target_address, service_limit_of, exit_port_on, exit_target_for}

abbrev pub get_node : Database → ℕ → Option NodeRow
get_node db id = find? (λ row. row.id == id) db.relay_nodes

abbrev pub get_nodes_by_ids : Database → List ℕ → List RelayNode
get_nodes_by_ids db ids =
    map (λ (row : NodeRow). row.entity) (filter (λ (row : NodeRow). has ids row.id) db.relay_nodes)

abbrev pub get_chains_for_node : Database → ℕ → List Chain
get_chains_for_node db node_id = filter (λ c. c.node_id == node_id) db.chains

abbrev pub get_tunnels_by_ids : Database → List ℕ → List TunnelRow
get_tunnels_by_ids db ids = filter (λ t. has ids t.id) db.tunnels

abbrev pub get_chains_for_tunnels : Database → List ℕ → List Chain
get_chains_for_tunnels db tunnel_ids =
    order_by (λ c. c.index) (filter (λ c. has tunnel_ids c.tunnel_id) db.chains)

abbrev pub is_of_tunnels : List ℕ → RelayRule → Bool
is_of_tunnels tunnel_ids r = elim r.tunnel_id [ none ↦ false | some t ↦ has tunnel_ids t ]

-- A row has no quota column.
abbrev pub to_relay_rule : RelayRule → RelayRule
to_relay_rule row = record row { quota = none }

abbrev pub get_rules_for_tunnels : Database → List ℕ → List RelayRule
get_rules_for_tunnels db tunnel_ids =
    map to_relay_rule (filter (is_of_tunnels tunnel_ids) db.relay_rules)

abbrev pub is_in : Chain → Bool
is_in c = elim c.chain_type [ in_link ↦ true | chain_link ↦ false | out_link ↦ false ]

abbrev pub is_chain : Chain → Bool
is_chain c = elim c.chain_type [ in_link ↦ false | chain_link ↦ true | out_link ↦ false ]

abbrev pub is_out : Chain → Bool
is_out c = elim c.chain_type [ in_link ↦ false | chain_link ↦ false | out_link ↦ true ]

-- The first out link speaks TLS; `tls_enabled` with another transport degrades to plaintext.
abbrev pub has_tls_link : Bool → List Chain → Bool
has_tls_link tls_enabled [] = false
has_tls_link tls_enabled (out ∷ outs) = tls_enabled && elim out.transport [
  | Transport.raw ↦ false
  | Transport.ws ↦ false
  | Transport.tls ↦ true
  | Transport.grpc ↦ false
  | Transport.wss ↦ false
  | Transport.mtls ↦ false
  | Transport.mwss ↦ false
]

abbrev pub balance_of : Text → Balance
balance_of strategy = if strategy == codes "iphash" then iphash else roundrobin

-- A service that forwards from a port to one target.
abbrev pub forward : RelayRule → ℕ → RealmTarget → Option TlsSide → RealmService
forward rule listen_port target side = record {
  name = service_name rule.id;
  listen_host = codes "0.0.0.0";
  listen_port = listen_port;
  target_host = target.host;
  target_port = target.port;
  extra_targets = none;
  balance = none;
  tls_side = side;
  alpn = none;
  connect_timeout_s = some 5;
  limit = service_limit_of rule;
}

abbrev with_extras : List RealmTarget → Balance → RealmService → RealmService
with_extras [] balance service = service
with_extras (t ∷ ts) balance service = record service {
  extra_targets = some (t ∷ ts);
  balance = some balance;
}

-- What the loops hold: `services` and `tlsWanted`.
pub record Rendered : Type 0 where
  pub services : List RealmService
  pub tls_wanted : Bool

-- `services.push`, unless the rule is skipped
abbrev pub push : Rendered → Bool → Option RealmService → Rendered
push acc tls_wanted none = record acc { tls_wanted = acc.tls_wanted || tls_wanted }
push acc tls_wanted (some service) = record acc {
  services = acc.services ++ service ∷ [];
  tls_wanted = acc.tls_wanted || tls_wanted;
}

module _ (node : RelayNode) (node_by_id : JsMap ℕ RelayNode) where
  -- The node of a link, or the node of the config where the map has none.
  abbrev pub node_of_link : Chain → RelayNode
  node_of_link link = or_else (Map.get node_by_id link.node_id) node

  unfoldable pub extra_targets_of : RelayRule → List Chain → List RealmTarget
  extra_targets_of rule [] = []
  extra_targets_of rule (out ∷ outs) =
      let rest = extra_targets_of rule outs in
      elim (exit_target_for rule (node_of_link out)) [ none ↦ rest | some extra ↦ extra ∷ rest ]

  -- The entry leg of a rule; with no exits it forwards to the rule's target.
  unfoldable pub entry_service : List Chain → Balance → Bool → RelayRule → Option RealmService
  unfolding extra_targets_of parse_target_address exit_target_for
  entry_service exits balance tls_link rule =
      let side = if tls_link then some connect else none in
      elim exits [
        | [] ↦ elim (parse_target_address rule.targets) [
          | none ↦ none
          | some target ↦ some (forward rule rule.listen_port target side)
        ]
        | out ∷ outs ↦ elim (exit_target_for rule (node_of_link out)) [
          | none ↦ none
          | some primary ↦ some (
              with_extras (extra_targets_of rule outs) balance
                (forward rule rule.listen_port primary side))
        ]
      ]

  -- The exit leg of a rule on the node.
  unfoldable pub exit_service : Bool → RelayRule → Option RealmService
  unfolding parse_target_address exit_port_on
  exit_service tls_link rule = elim (parse_target_address rule.targets) [
    | none ↦ none
    | some target ↦ elim (exit_port_on rule node) [
      | none ↦ none
      | some exit_port ↦
          some (forward rule exit_port target (if tls_link then some listen else none))
    ]
  ]

  -- `tlsWanted` is set before the entry leg may be skipped.
  unfoldable pub render_entry : List Chain → Balance → Bool → Rendered → RelayRule → Rendered
  unfolding entry_service
  render_entry exits balance tls_link acc rule =
      push acc tls_link (entry_service exits balance tls_link rule)

  -- For an exit leg it is set only if the leg is served.
  unfoldable pub render_exit : Bool → Rendered → RelayRule → Rendered
  unfolding exit_service
  render_exit tls_link acc rule =
      let service = exit_service tls_link rule in
      push acc (elim service [ none ↦ false | some _ ↦ tls_link ]) service

  -- The rules of one tunnel: entry legs on the in node, then exit legs, which the code renders on
  -- either end.
  unfoldable pub render_rules :
      Bool → Chain → List Chain → Bool → List RelayRule → Rendered → Rendered
  unfolding render_entry render_exit
  render_rules is_in_node in_end outs tls_link tunnel_rules acc =
      let exits = if tls_link then take 1 outs else outs in
      let entered =
        if is_in_node
        then foldl (render_entry exits (balance_of in_end.strategy) tls_link) acc tunnel_rules
        else acc in
      foldl (render_exit tls_link) entered tunnel_rules

  unfoldable pub is_on_tunnel : ℕ → RelayRule → Bool
  is_on_tunnel tunnel_id r = elim r.tunnel_id [ none ↦ false | some t ↦ t == tunnel_id ]

  -- The checks on the ends of a tunnel: without exactly one in link, with both ends on the node or
  -- with no end on it, the tunnel is skipped.
  unfoldable pub render_ends : List Chain → List Chain → Bool → List RelayRule → Rendered → Rendered
  unfolding render_rules
  render_ends [] outs tls_enabled tunnel_rules acc = acc
  render_ends (_ ∷ _ ∷ _) outs tls_enabled tunnel_rules acc = acc
  render_ends (in_end ∷ []) outs tls_enabled tunnel_rules acc =
      let is_in_node = in_end.node_id == node.id in
      let own_out = any (λ o. o.node_id == node.id) outs in
      if (is_in_node && own_out) || (not is_in_node && not own_out)
      then acc
      else render_rules is_in_node in_end outs (has_tls_link tls_enabled outs) tunnel_rules acc

  -- One tunnel; a tunnel with middle hops is skipped.
  unfoldable pub render_tunnel : List Chain → List RelayRule → Rendered → TunnelRow → Rendered
  unfolding render_ends is_on_tunnel
  render_tunnel all_chains rules acc tunnel =
      let t_chains = filter (λ c. c.tunnel_id == tunnel.id) all_chains in
      let outs = order_by (λ c. c.index) (order_by (λ c. c.id) (filter is_out t_chains)) in
      let rendered =
        render_ends (filter is_in t_chains) outs tunnel.tls_enabled
          (filter (is_on_tunnel tunnel.id) rules) acc in
      if any is_chain t_chains then acc else rendered
