-- ===== src/Traffic/Writes.antt =====
-- The writes of `ingestTraffic`, each loop over chunks as one change of its table.
use tyz.Prelude.{ℕ, ◌≡◌, refl, ap, ◌∙◌, List, [], ◌∷◌, ◌++◌, map, foldl, Text}
use tyz.Js.Map.{JsMap}
use tyz.Db.{Database, HourlyRow, CounterRow}
use tyz.Db.Statements.{chunk, upsert}
use tyz.Traffic.{Usage, HourBucket, Fold}
use tyz.Traffic.Ingest.{
  node_rate, hourly_row, same_hour, merge_hour, same_counter, merge_counter, counter_row,
  observe_part, observe_node, bucket_list, put_ledger, ledger_writes, put_counters, counter_writes,
  put_observed, rule_writes, fold_writes, run, write_fold,
}

unfoldable pub write_ledger : ℕ → List HourBucket → Database → Database
unfolding same_hour merge_hour hourly_row node_rate
write_ledger node_id [] db = db
write_ledger node_id (b ∷ buckets) db = record db {
  traffic_hourly =
      foldl (foldl (upsert same_hour merge_hour)) db.traffic_hourly
        (chunk (map (hourly_row node_id (node_rate db node_id)) (b ∷ buckets)) 12);
}

unfoldable pub write_counters : ℕ → Text → JsMap Text Usage → Database → Database
unfolding same_counter merge_counter counter_row
write_counters node_id now updates db = record db {
  traffic_counters =
      foldl (foldl (upsert same_counter merge_counter)) db.traffic_counters
        (chunk (map (counter_row node_id now) updates) 16);
}

unfoldable pub observe_rules : List HourBucket → Database → Database
unfolding observe_part
observe_rules buckets db = record db {
  relay_rules = foldl observe_part db.relay_rules (chunk buckets 16);
}

run-append : (a b : List (Database → Database)) (db : Database) → run (a ++ b) db ≡ run b (run a db)
run-append [] b db = refl
run-append (w ∷ a) b db = run-append a b (w db)

run-put_ledger :
    (parts : List (List HourlyRow)) (db : Database)
    → run (map put_ledger parts) db ≡ record db {
      traffic_hourly = foldl (foldl (upsert same_hour merge_hour)) db.traffic_hourly parts;
    }
run-put_ledger [] db = refl
run-put_ledger (part ∷ parts) db = run-put_ledger parts (put_ledger part db)

run-put_counters :
    (parts : List (List CounterRow)) (db : Database)
    → run (map put_counters parts) db ≡ record db {
      traffic_counters =
          foldl (foldl (upsert same_counter merge_counter)) db.traffic_counters parts;
    }
run-put_counters [] db = refl
run-put_counters (part ∷ parts) db = run-put_counters parts (put_counters part db)

run-put_observed :
    (parts : List (List HourBucket)) (db : Database)
    → run (map put_observed parts) db
      ≡ record db { relay_rules = foldl observe_part db.relay_rules parts }
run-put_observed [] db = refl
run-put_observed (part ∷ parts) db = run-put_observed parts (put_observed part db)

pub run-ledger_writes :
    (node_id : ℕ) (buckets : List HourBucket) (db : Database)
    → run (ledger_writes node_id buckets db) db ≡ write_ledger node_id buckets db
unfolding ledger_writes write_ledger chunk
run-ledger_writes node_id [] db = refl
run-ledger_writes node_id (b ∷ buckets) db =
    run-put_ledger (chunk (map (hourly_row node_id (node_rate db node_id)) (b ∷ buckets)) 12) db

-- The whole of the writes, in the order of the code.
pub write_fold-in_order :
    (node_id : ℕ) (now : Text) (st : Fold) (db : Database)
    → write_fold node_id now st db
      ≡ observe_node node_id st.node_ingress st.node_egress (
          observe_rules (bucket_list st) (
            write_counters node_id now st.counter_updates
              (write_ledger node_id (bucket_list st) db)))
unfolding write_fold fold_writes counter_writes rule_writes write_counters observe_rules
write_fold-in_order node_id now st db =
    let buckets = bucket_list st in
    let ledger = write_ledger node_id buckets db in
    let counted = write_counters node_id now st.counter_updates ledger in
    let last = observe_node node_id st.node_ingress st.node_egress ∷ [] in
    let seen = rule_writes buckets ++ last in
    let counts = counter_writes node_id now st.counter_updates ++ seen in
    run-append (ledger_writes node_id buckets db) counts db
    ∙ ap (run counts) (run-ledger_writes node_id buckets db)
    ∙ run-append (counter_writes node_id now st.counter_updates) seen ledger
    ∙ ap (run seen)
        (run-put_counters (chunk (map (counter_row node_id now) st.counter_updates) 16) ledger)
    ∙ run-append (rule_writes buckets) last counted
    ∙ ap (run last) (run-put_observed (chunk buckets 16) counted)
