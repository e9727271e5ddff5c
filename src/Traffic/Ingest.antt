-- ===== src/Traffic/Ingest.antt =====
-- `ingestTraffic` of apps/server/src/services/traffic.ts: the statements of one batch, in order.
use tyz.Prelude.{
  ℕ, ◌+◌, Bool, ◌&&◌, ◌||◌, Option, none, some, List, [], ◌∷◌, foldl, map, Text, ltb, if◌then◌else◌,
  ◌==◌, nat_eq, text_eq, or_else, filter, find?, ◌++◌,
}
use Prim.Native.Nat.{max}
use tyz.Js.Map
use tyz.Js.Map.{JsMap, has, distinct}
use tyz.Entities.{RelayRule}
use tyz.Samples.{GostStatsSample}
use tyz.Db.{Database, NodeRow, CounterRow, HourlyRow, MetricsRow}
use tyz.Db.Statements.{chunk, upsert}
use tyz.Traffic.{
  hour_floor_iso, is_rule_service, rule_id_of, is_service_level, node_rule_tunnels, Usage,
  HourBucket, Fold, ingest_sample, last_counters, billable_owners, charge,
}

-- The rollup of connections: samples, sum and maximum for each service.
pub record Rollup : Type 0 where
  pub samples : ℕ
  pub conn_sum : ℕ
  pub conn_max : ℕ

unfoldable pub roll : JsMap Text Rollup → GostStatsSample → JsMap Text Rollup
roll agg s =
    let none_yet : Rollup = record { samples = 0; conn_sum = 0; conn_max = 0 } in
    let cur = or_else (Map.get agg s.service) none_yet in
    Map.set agg s.service (record {
      samples = cur.samples + 1;
      conn_sum = cur.conn_sum + s.current_conns;
      conn_max = max cur.conn_max s.current_conns;
    })

unfoldable pub same_metrics : MetricsRow → MetricsRow → Bool
same_metrics a b = a.node_id == b.node_id && (a.service == b.service && a.hour_ts == b.hour_ts)

unfoldable pub merge_metrics : MetricsRow → MetricsRow → MetricsRow
merge_metrics old excluded = record old {
  samples = old.samples + excluded.samples;
  conn_sum = old.conn_sum + excluded.conn_sum;
  conn_max = max old.conn_max excluded.conn_max;
}

unfoldable pub rollup_service_metrics : Database → ℕ → List GostStatsSample → Text → Database
unfolding roll same_metrics merge_metrics
rollup_service_metrics db node_id [] now = db
rollup_service_metrics db node_id (s ∷ samples) now =
    let row_of : Text × Rollup → MetricsRow = λ e. record {
      node_id = node_id;
      service = e.0;
      hour_ts = hour_floor_iso now;
      samples = e.1.samples;
      conn_sum = e.1.conn_sum;
      conn_max = e.1.conn_max;
    } in
    record db {
      service_metrics_hourly =
          foldl (foldl (upsert same_metrics merge_metrics)) db.service_metrics_hourly
            (map (map row_of) (chunk (foldl roll [] (s ∷ samples)) 16));
    }

-- `node?.rate ?? 1.0`, in thousandths
unfoldable pub node_rate : Database → ℕ → ℕ
node_rate db node_id = elim (find? (λ n. n.id == node_id) db.relay_nodes) [
  | none ↦ 1000
  | some n ↦ n.rate
]

unfoldable pub hourly_row : ℕ → ℕ → HourBucket → HourlyRow
unfolding charge
hourly_row node_id rate b = record {
  rule_id = b.rule_id;
  user_id = b.user_id;
  node_id = node_id;
  hour_ts = b.hour_ts;
  real_upload = b.upload;
  real_download = b.download;
  billed_upload = charge rate b.upload;
  billed_download = charge rate b.download;
}

unfoldable pub same_hour : HourlyRow → HourlyRow → Bool
same_hour a b = a.rule_id == b.rule_id && a.hour_ts == b.hour_ts

-- The owner and the node stay those of the first report.
unfoldable pub merge_hour : HourlyRow → HourlyRow → HourlyRow
merge_hour old excluded = record old {
  real_upload = old.real_upload + excluded.real_upload;
  real_download = old.real_download + excluded.real_download;
  billed_upload = old.billed_upload + excluded.billed_upload;
  billed_download = old.billed_download + excluded.billed_download;
}

unfoldable pub same_counter : CounterRow → CounterRow → Bool
same_counter a b = a.node_id == b.node_id && a.service == b.service

unfoldable pub merge_counter : CounterRow → CounterRow → CounterRow
merge_counter old excluded = record old {
  upload = excluded.upload;
  download = excluded.download;
  updated_at = excluded.updated_at;
}

unfoldable pub counter_row : ℕ → Text → Text × Usage → CounterRow
counter_row node_id now e = record {
  node_id = node_id;
  service = e.0;
  upload = e.1.upload;
  download = e.1.download;
  updated_at = now;
}

-- `CASE id WHEN … THEN … ELSE 0 END`
unfoldable pub case_of : List HourBucket → (HourBucket → ℕ) → ℕ → ℕ
case_of [] value id = 0
case_of (b ∷ part) value id =
    let other = case_of part value id in if b.rule_id == id then value b else other

-- One `UPDATE` of the rules' observation counters.
unfoldable pub observe_part : List RelayRule → List HourBucket → List RelayRule
unfolding case_of
observe_part rules part =
    map
      (λ r.
        if has (map (λ (b : HourBucket). b.rule_id) part) r.id
        then record r {
          upload_traffic = r.upload_traffic + case_of part (λ b. b.upload) r.id;
          download_traffic = r.download_traffic + case_of part (λ b. b.download) r.id;
        }
        else r)
      rules

unfoldable pub add_traffic : ℕ → ℕ → ℕ → NodeRow → NodeRow
add_traffic node_id ingress egress n =
    if n.id == node_id
    then record n {
      entity = record n.entity {
        ingress_traffic = n.ingress_traffic + ingress;
        egress_traffic = n.egress_traffic + egress;
      };
    }
    else n

unfoldable pub observe_node : ℕ → ℕ → ℕ → Database → Database
unfolding add_traffic
observe_node node_id ingress egress db =
    if ltb 0 ingress || ltb 0 egress
    then record db { relay_nodes = map (add_traffic node_id ingress egress) db.relay_nodes }
    else db

-- The names of the services in the batch, and the ids of those that are rules.
unfoldable pub batch_names : List GostStatsSample → List Text
batch_names samples = distinct (map (λ (s : GostStatsSample). s.service) samples)

unfoldable pub batch_rule_ids : List GostStatsSample → List ℕ
batch_rule_ids samples = distinct (
    map (λ (s : GostStatsSample). rule_id_of s.service)
      (filter (λ s. is_rule_service s.service) samples))

-- What the loop starts from.
abbrev pub start_fold : Database → ℕ → List GostStatsSample → Fold
start_fold db node_id samples = record {
  last = last_counters db node_id (batch_names samples);
  counter_updates = [];
  buckets = [];
  node_ingress = 0;
  node_egress = 0;
}

abbrev pub batch_owners : Database → List ℕ → List GostStatsSample → JsMap ℕ ℕ
batch_owners db rule_tunnels samples = billable_owners db rule_tunnels (batch_rule_ids samples)

unfoldable pub fold_samples : Database → ℕ → List ℕ → Text → List GostStatsSample → Fold
unfolding batch_names batch_rule_ids
fold_samples db node_id rule_tunnels now samples =
    foldl (ingest_sample (batch_owners db rule_tunnels samples) (hour_floor_iso now))
      (start_fold db node_id samples) samples

abbrev pub bucket_list : Fold → List HourBucket
bucket_list st = map (λ e. e.1) st.buckets

-- The ids of the rules that were billed.
abbrev pub billed_ids : Fold → List ℕ
billed_ids st = map (λ e. e.0) st.buckets

-- The statements of `ingestTraffic` that write, in their order, one for each chunk of rows: the
-- ledger first, then the counters, the rules and the node.
abbrev pub put_ledger : List HourlyRow → Database → Database
put_ledger part db = record db {
  traffic_hourly = foldl (upsert same_hour merge_hour) db.traffic_hourly part;
}

unfoldable pub ledger_writes : ℕ → List HourBucket → Database → List (Database → Database)
unfolding hourly_row node_rate
ledger_writes node_id buckets db =
    map put_ledger (chunk (map (hourly_row node_id (node_rate db node_id)) buckets) 12)

abbrev pub put_counters : List CounterRow → Database → Database
put_counters part db = record db {
  traffic_counters = foldl (upsert same_counter merge_counter) db.traffic_counters part;
}

unfoldable pub counter_writes : ℕ → Text → JsMap Text Usage → List (Database → Database)
unfolding counter_row
counter_writes node_id now updates =
    map put_counters (chunk (map (counter_row node_id now) updates) 16)

abbrev pub put_observed : List HourBucket → Database → Database
put_observed part db = record db { relay_rules = observe_part db.relay_rules part }

unfoldable pub rule_writes : List HourBucket → List (Database → Database)
rule_writes buckets = map put_observed (chunk buckets 16)

unfoldable pub fold_writes : ℕ → Text → Fold → Database → List (Database → Database)
unfolding ledger_writes counter_writes rule_writes observe_node
fold_writes node_id now st db =
    ledger_writes node_id (bucket_list st) db
    ++ (counter_writes node_id now st.counter_updates
        ++ (rule_writes (bucket_list st)
            ++ observe_node node_id st.node_ingress st.node_egress ∷ []))

-- One statement after the other.
abbrev pub run : List (Database → Database) → Database → Database
run writes db = foldl (λ d write. write d) db writes

unfoldable pub write_fold : ℕ → Text → Fold → Database → Database
unfolding fold_writes
write_fold node_id now st db = run (fold_writes node_id now st db) db

unfoldable pub ingest_service_samples :
    ℕ → Option (List ℕ) → Text → List GostStatsSample → Database → Database × List ℕ
ingest_service_samples node_id node_tunnels now [] db = (db, [])
ingest_service_samples node_id node_tunnels now (s ∷ samples) db =
    let rule_tunnels = or_else node_tunnels (node_rule_tunnels db node_id) in
    let st = fold_samples db node_id rule_tunnels now (s ∷ samples) in
    (write_fold node_id now st db, billed_ids st)

-- `ingestTraffic`: the rollup reads the clock for itself (`rollup_now`).
unfoldable pub ingest_traffic :
    Database → ℕ → List GostStatsSample → Option (List ℕ) → Text → Text → Database × List ℕ
ingest_traffic db node_id samples node_tunnels rollup_now now =
    let service_samples = filter is_service_level samples in
    ingest_service_samples node_id node_tunnels now service_samples
      (rollup_service_metrics db node_id service_samples rollup_now)
