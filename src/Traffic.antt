-- ===== src/Traffic.antt =====
-- apps/server/src/services/traffic.ts: the names of services, the nodes' rights to bill, and the
-- fold of one batch of samples. What the fold writes to the database is in Traffic/Ingest.
-- The two messages' times are arguments: `now` is `new Date().toISOString()`.
pub mod Ingest
pub mod Writes
pub mod Conservation
pub mod Authorization
pub mod Foreign
pub mod Ledger
pub mod Crash
use tyz.Prelude.{
  ℕ, ◌+◌, ◌-◌, ◌*◌, ◌/◌, Bool, true, false, ◌&&◌, ◌||◌, Option, none, some, List, [], ◌∷◌, ◌++◌,
  foldl, Text, ltb, leb, if◌then◌else◌, ◌==◌, nat_eq, text_eq, or_else, filter, drop, take, map,
}
use tyz.Js.Map
use tyz.Js.Map.{JsMap, has, add, distinct}
use tyz.Js.Text.{codes, strip_prefix}
use tyz.Js.Text.Decimal.{is_digits, number, show}
use tyz.Entities.{ChainType, in_link, chain_link, out_link, Chain, RelayRule}
use tyz.Samples.{GostStatsSample}
use tyz.Db.{Database, CounterRow}
use tyz.Db.Statements.{chunk}

-- '2026-08-16T04:38:23.486Z' -> '2026-08-16T04:00:00.000Z'
unfoldable pub hour_floor_iso : Text → Text
hour_floor_iso iso = take 13 iso ++ codes ":00:00.000Z"

-- `service-${rule.id}`
unfoldable pub service_name : ℕ → Text
service_name rule_id = codes "service-" ++ show rule_id

-- `/^service-(\d+)$/.exec(name)`: the digits
unfoldable pub service_digits : Text → Option Text
service_digits name = elim (strip_prefix (codes "service-") name) [
  | none ↦ none
  | some digits ↦ if is_digits digits then some digits else none
]

-- `Number(name.slice(8))`
unfoldable pub rule_id_of : Text → ℕ
rule_id_of name = number (drop 8 name)

unfoldable pub is_rule_service : Text → Bool
unfolding service_digits rule_id_of
is_rule_service name = elim (service_digits name) [
  | none ↦ false
  | some _ ↦ ltb 0 (rule_id_of name)
]

unfoldable pub serves_rules : ChainType → Bool
serves_rules in_link = true
serves_rules out_link = true
serves_rules chain_link = false

-- `nodeRuleTunnels`: the tunnels on which the node deploys per-rule services.
unfoldable pub node_rule_tunnels : Database → ℕ → List ℕ
unfolding serves_rules
node_rule_tunnels db node_id =
    foldl (λ tunnels c. if serves_rules c.chain_type then add tunnels c.tunnel_id else tunnels) []
      (filter (λ c. c.node_id == node_id) db.chains)

-- `!s.client`: absent or empty
unfoldable pub is_service_level : GostStatsSample → Bool
is_service_level s = elim s.client [ none ↦ true | some client ↦ client == [] ]

pub record Usage : Type 0 where
  pub upload : ℕ
  pub download : ℕ

pub record HourBucket : Type 0 where
  pub rule_id : ℕ
  pub user_id : ℕ
  pub hour_ts : Text
  pub upload : ℕ
  pub download : ℕ

-- The variables of the loop over the samples.
pub record Fold : Type 0 where
  pub last : JsMap Text Usage
  pub counter_updates : JsMap Text Usage
  pub buckets : JsMap ℕ HourBucket
  pub node_ingress : ℕ
  pub node_egress : ℕ

-- What a sample adds to the last cumulative value. A counter that fell was reset: then (and at the
-- first sighting) the whole current value is this interval's traffic.
unfoldable pub delta : Option Usage → GostStatsSample → Usage
delta none s = record { upload = s.input_bytes; download = s.output_bytes }
delta (some prev) s =
    if leb prev.upload s.input_bytes && leb prev.download s.output_bytes
    then record { upload = s.input_bytes - prev.upload; download = s.output_bytes - prev.download }
    else record { upload = s.input_bytes; download = s.output_bytes }

-- The rule's bucket with the interval's traffic added; a first bucket belongs to the owner.
unfoldable pub bumped : ℕ → ℕ → Text → Usage → Option HourBucket → HourBucket
bumped rule_id owner hour_ts d bucket? =
    let fresh : HourBucket = record {
      rule_id = rule_id;
      user_id = owner;
      hour_ts = hour_ts;
      upload = 0;
      download = 0;
    } in
    let bucket = or_else bucket? fresh in
    record bucket { upload = bucket.upload + d.upload; download = bucket.download + d.download }

unfoldable pub bump : ℕ → ℕ → Text → Usage → JsMap ℕ HourBucket → JsMap ℕ HourBucket
unfolding bumped
bump rule_id owner hour_ts d buckets =
    Map.set buckets rule_id (bumped rule_id owner hour_ts d (Map.get buckets rule_id))

-- The part of the loop that bills a rule: nothing for other services, for no traffic, and for
-- rules of tunnels that the node does not serve.
unfoldable pub bill : JsMap ℕ ℕ → Text → Text → Usage → JsMap ℕ HourBucket → JsMap ℕ HourBucket
bill owner_of hour_ts service d buckets =
    let rule_id = rule_id_of service in
    if is_rule_service service
    then if leb d.upload 0 && leb d.download 0 then buckets else elim (Map.get owner_of rule_id) [
      | none ↦ buckets
      | some owner ↦ bump rule_id owner hour_ts d buckets
    ]
    else buckets

unfoldable pub ingest_sample : JsMap ℕ ℕ → Text → Fold → GostStatsSample → Fold
ingest_sample owner_of hour_ts st s =
    let d = delta (Map.get st.last s.service) s in
    let current : Usage = record { upload = s.input_bytes; download = s.output_bytes } in
    record {
      last = Map.set st.last s.service current;
      counter_updates = Map.set st.counter_updates s.service current;
      buckets = bill owner_of hour_ts s.service d st.buckets;
      node_ingress = st.node_ingress + d.upload;
      node_egress = st.node_egress + d.download;
    }

unfoldable pub note_counter : JsMap Text Usage → CounterRow → JsMap Text Usage
note_counter last c = Map.set last c.service (record { upload = c.upload; download = c.download })

-- The last cumulative values of the services in the batch, 90 names to a statement.
unfoldable pub last_counters : Database → ℕ → List Text → JsMap Text Usage
last_counters db node_id names =
    foldl
      (λ last part.
        foldl note_counter last
          (filter (λ c. c.node_id == node_id && has part c.service) db.traffic_counters))
      [] (chunk names 90)

-- The owner (0 for none) of each rule that the node may bill.
unfoldable pub note_owner : List ℕ → JsMap ℕ ℕ → RelayRule → JsMap ℕ ℕ
note_owner rule_tunnels owner_of r = elim r.tunnel_id [
  | none ↦ owner_of
  | some tunnel_id ↦
      if has rule_tunnels tunnel_id then Map.set owner_of r.id (or_else r.user_id 0) else owner_of
]

unfoldable pub billable_owners : Database → List ℕ → List ℕ → JsMap ℕ ℕ
billable_owners db rule_tunnels rule_ids =
    foldl
      (λ owner_of part.
        foldl (note_owner rule_tunnels) owner_of (filter (λ r. has part r.id) db.relay_rules))
      [] (chunk rule_ids 90)

-- `Math.round(x * rate)`, the rate in thousandths
unfoldable pub charge : ℕ → ℕ → ℕ
charge rate x = (x * rate + 500) / 1000
