-- ===== src/Realm.antt =====
-- apps/server/src/db/repo.ts: the parts of the config renderer that concern one rule.
-- Warnings on the console are not modelled.
pub mod Render
pub mod Build
pub mod Ports
pub mod Addresses
pub mod Legs
pub mod Services
pub mod Allowed
pub mod Snapshot
pub mod Recompute
pub mod Fanout
pub mod Notified
use tyz.Prelude.{
  ℕ, ◌+◌, ◌-◌, ◌*◌, ◌/◌, ◌%◌, Bool, true, false, not, ◌&&◌, ◌||◌, Option, none, some, List, [], ◌∷◌,
  ◌++◌, Text, ltb, leb, if◌then◌else◌, ◌==◌, nat_beq, any,
}
use tyz.Js.Text.{codes}
use tyz.Js.Text.Decimal.{is_digits, number, show}
use tyz.Js.Number.{to_number}
use tyz.Entities.{
  RelayNode, RelayRule, LimiterConfig, TrafficLimiter, ConnectionLimiter, Milli, RealmTarget,
  RealmServiceLimit,
}

-- `endpointAddress` of packages/shared/src/entities.ts
unfoldable pub endpoint_address : Text → ℕ → Text
endpoint_address host port =
    if any (λ c. nat_beq c b':') host
    then codes "[" ++ host ++ codes "]:" ++ show port
    else host ++ codes ":" ++ show port

-- What stands before the first dash and after it.
unfoldable pub split_dash : Text → Option (Text × Text)
split_dash [] = none
split_dash (c ∷ s) =
    let rest = split_dash s in
    if nat_beq c b'-'
    then some ([], s)
    else elim rest [ none ↦ none | some (a, b) ↦ some (c ∷ a, b) ]

-- `/^(\d+)-(\d+)$/.exec(ports)`, both groups as numbers
unfoldable pub port_range : Text → Option (ℕ × ℕ)
unfolding split_dash
port_range ports = elim (split_dash ports) [
  | none ↦ none
  | some (a, b) ↦ if is_digits a && is_digits b then some (number a, number b) else none
]

-- start + ((ruleId * 31 + nodeId) % range), in a range of valid ports
unfoldable pub port_in_range : ℕ → ℕ → ℕ × ℕ → Option ℕ
port_in_range rule_id node_id (start, end) =
    if leb 1 start && (leb end 65535 && leb start end)
    then some (start + (rule_id * 31 + node_id) % (end - start + 1))
    else none

unfoldable pub allocate_port_for_rule : Text → ℕ → ℕ → Option ℕ
unfolding port_range port_in_range
allocate_port_for_rule node_ports rule_id node_id = elim (port_range node_ports) [
  | none ↦ none
  | some range ↦ port_in_range rule_id node_id range
]

-- The text before the last colon and after it.
unfoldable pub split_last_colon : Text → Option (Text × Text)
split_last_colon [] = none
split_last_colon (c ∷ s) = elim (split_last_colon s) [
  | some (a, b) ↦ some (c ∷ a, b)
  | none ↦ if nat_beq c b':' then some ([], s) else none
]

-- `.replace(/^\[|\]$/g, "")`
unfoldable pub drop_open : Text → Text
drop_open [] = []
drop_open (c ∷ s) = if nat_beq c b'[' then s else c ∷ s

unfoldable pub drop_close : Text → Text
drop_close [] = []
drop_close (c ∷ []) = if nat_beq c b']' then [] else c ∷ []
drop_close (c ∷ d ∷ s) = c ∷ drop_close (d ∷ s)

unfoldable pub valid_target : Text → Option ℕ → Option RealmTarget
valid_target [] port = none
valid_target (c ∷ host) none = none
valid_target (c ∷ host) (some port) =
    if ltb port 1 || ltb 65535 port then none else some (record { host = c ∷ host; port = port })

unfoldable pub parse_target_address : Text → Option RealmTarget
unfolding split_last_colon drop_open drop_close valid_target
parse_target_address addr = elim (split_last_colon addr) [
  | none ↦ none
  | some ([], _) ↦ none
  | some (_ ∷ _, []) ↦ none
  | some (c ∷ host, d ∷ port) ↦
      valid_target (drop_close (drop_open (c ∷ host))) (to_number (d ∷ port))
]

abbrev floor : Option Milli → Option ℕ
floor none = none
floor (some x) = some (x / 1000)

abbrev traffic_of : Option LimiterConfig → (TrafficLimiter → Option Milli) → Option Milli
traffic_of none field = none
traffic_of (some limit) field = elim limit.traffic [ none ↦ none | some t ↦ field t ]

abbrev connection_of : Option LimiterConfig → (ConnectionLimiter → Option Milli) → Option Milli
connection_of none field = none
connection_of (some limit) field = elim limit.connection [ none ↦ none | some c ↦ field c ]

abbrev pub is_set {ℓ} : {A : Type ℓ} → Option A → Bool
is_set none = false
is_set (some _) = true

-- The enforceable subset of the rule's limits, in whole numbers; absent if nothing is set.
unfoldable pub service_limit_of : RelayRule → Option RealmServiceLimit
service_limit_of rule =
    let limit : RealmServiceLimit = record {
      service_in = floor (traffic_of rule.limit (λ t. t.service_in));
      service_out = floor (traffic_of rule.limit (λ t. t.service_out));
      conn_in = floor (traffic_of rule.limit (λ t. t.conn_in));
      conn_out = floor (traffic_of rule.limit (λ t. t.conn_out));
      max_conns = floor (connection_of rule.limit (λ c. c.service_limit));
    } in
    if is_set limit.service_in
      || is_set limit.service_out
      || is_set limit.conn_in
      || is_set limit.conn_out
      || is_set limit.max_conns
    then some limit
    else none

-- The rule's own exit port if it is pinned, else the allocation on the node; 0 counts as none.
unfoldable pub exit_port_on : RelayRule → RelayNode → Option ℕ
unfolding allocate_port_for_rule
exit_port_on rule node =
    if ltb 0 rule.exit_port
    then some rule.exit_port
    else elim (allocate_port_for_rule node.ports rule.id node.id) [
      | none ↦ none
      | some port ↦ if nat_beq port 0 then none else some port
    ]

-- What an entry dials for one exit node.
unfoldable pub exit_target_for : RelayRule → RelayNode → Option RealmTarget
unfolding exit_port_on
exit_target_for rule exit_node = elim (exit_port_on rule exit_node) [
  | none ↦ none
  | some port ↦ some (record { host = exit_node.address; port = port })
]
