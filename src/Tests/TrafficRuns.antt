-- ===== src/Tests/TrafficRuns.antt =====
-- Statistics of node 1.
use tyz.Prelude.{
  ℕ, ◌+◌, ◌≤◌, ◌≡◌, refl, some, none, List, [], ◌∷◌, foldl, map, sum_of, filter, ◌==◌, nat_eq,
  arith, false, take, ◌⊎◌,
}
use tyz.Js.Map
use tyz.Js.Map.{JsMap, has, distinct}
use tyz.Js.Text.{codes}
use tyz.Js.Text.Decimal
use tyz.Entities.{RelayRule}
use tyz.Db.{HourlyRow}
use tyz.Db.Statements.{chunk, upsert}
use tyz.Traffic.{
  hour_floor_iso, is_rule_service, node_rule_tunnels, is_service_level, delta, bill, bump, Fold,
  ingest_sample, last_counters, note_counter, note_owner, billable_owners, charge,
}
use tyz.Traffic.Ingest.{
  rollup_service_metrics, node_rate, observe_node, ledger_writes, counter_writes, rule_writes,
  fold_writes, run, fold_samples, start_fold, batch_owners, bucket_list, write_fold,
  ingest_service_samples, ingest_traffic,
}
use tyz.Traffic.Conservation.{total_upload, total_download, fold_never_under, fold_exact}
use tyz.Traffic.Foreign.{ingest_traffic-foreign}
use tyz.Traffic.Ledger.{ledger_totals, add_buckets}
use tyz.Traffic.Crash.{ingest-ledger, crash_retry}
use tyz.Samples.{GostStatsSample}
use tyz.Tests.Fixtures.{time, db, sample, batch}

ingest : Unit {0}
unfolding ingest_traffic ingest_service_samples is_service_level write_fold observe_node
    fold_samples ingest_sample delta Map.get Map.set Map.add distinct last_counters note_counter
    chunk upsert rollup_service_metrics fold_writes rule_writes counter_writes ledger_writes
    Decimal.is_digits Decimal.number bill billable_owners bump charge hour_floor_iso is_rule_service
    node_rule_tunnels note_owner
ingest = tt

-- 50 bytes up since the stored counter of 50, charged at one and a half.
bills_growth :
    map
      (λ (h : HourlyRow). h.billed_upload)
      (ingest_traffic db 1 batch none time time).0.traffic_hourly
    ≡ 75 ∷ []
unfolding ingest
bills_growth = refl

-- The rule of another node's tunnel is not billed.
ingest_traffic-foreign_example :
    let r = ingest_traffic db 1 batch none time time in
    (filter (λ (h : HourlyRow). h.rule_id == 7) r.0.traffic_hourly ≡ [])
    × (filter (λ (x : RelayRule). x.id == 7) r.0.relay_rules
        ≡ filter (λ (x : RelayRule). x.id == 7) db.relay_rules)
    × (has r.1 7 ≡ false)
unfolding ingest
ingest_traffic-foreign_example = ingest_traffic-foreign 7 db 1 batch none time time refl

abbrev usages : JsMap ℕ ℕ
usages = (100, 9) ∷ []

abbrev fold0 : Fold
fold0 = start_fold db 1 batch

fold_never_under_example :
    let st' = fold_samples db 1 (10 ∷ []) time batch in
    (fold0.node_ingress + total_upload st'.last ≤ st'.node_ingress + total_upload fold0.last)
    × (fold0.node_egress + total_download st'.last ≤ st'.node_egress + total_download fold0.last)
unfolding ingest
fold_never_under_example =
    fold_never_under (batch_owners db (10 ∷ []) batch) (hour_floor_iso time) batch fold0

abbrev growing : List GostStatsSample
growing = sample (codes "service-100") 60 90 ∷ sample (codes "service-100") 100 100 ∷ []

fold_exact_example :
    let st = start_fold db 1 growing in
    let st' = foldl (ingest_sample usages (hour_floor_iso time)) st growing in
    (st.node_ingress + total_upload st'.last ≡ st'.node_ingress + total_upload st.last)
    × (st.node_egress + total_download st'.last ≡ st'.node_egress + total_download st.last)
unfolding ingest
fold_exact_example =
    fold_exact usages (hour_floor_iso time) growing (start_fold db 1 growing)
      ((omega arith, omega arith), ((omega arith, omega arith), tt))

ingest-ledger_example :
    let st = fold_samples db 1 (10 ∷ []) time batch in
    (ledger_totals (ingest_service_samples 1 (some (10 ∷ [])) time batch db).0
      ≡ add_buckets (node_rate db 1) (bucket_list st) (ledger_totals db))
    × (sum_of (λ b. b.upload) (bucket_list st) ≤ st.node_ingress)
    × (sum_of (λ b. b.download) (bucket_list st) ≤ st.node_egress)
ingest-ledger_example = ingest-ledger db 1 (10 ∷ []) time batch

-- The report is stopped behind its first statement.
crash_retry_example :
    let st = fold_samples db 1 (10 ∷ []) time batch in
    let stopped = run (take 1 (fold_writes 1 time st db)) db in
    ((ledger_totals stopped ≡ add_buckets (node_rate db 1) (bucket_list st) (ledger_totals db))
      ⊎ (fold_samples stopped 1 (10 ∷ []) time growing ≡ fold_samples db 1 (10 ∷ []) time growing))
    × (ledger_totals (ingest_service_samples 1 (some (10 ∷ [])) time growing stopped).0
        ≡ add_buckets
            (node_rate stopped 1)
            (bucket_list (fold_samples stopped 1 (10 ∷ []) time growing))
            (ledger_totals stopped))
crash_retry_example = crash_retry db 1 (10 ∷ []) time time batch growing 1
