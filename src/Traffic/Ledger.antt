-- ===== src/Traffic/Ledger.antt =====
-- What one batch adds to the hourly ledger, and what a crash between its two writes costs.
use tyz.Prelude.{
  ℕ, ◌+◌, ◌≤◌, ◌≡◌, refl, ap, ◌∙◌, Option, none, some, List, [], ◌∷◌, foldl, map, arith, Text,
  nat_eq, text_eq, sum_of, sum-map,
}
use tyz.Js.Map
use tyz.Js.Map.{JsMap, value_at, sum-set}
use tyz.Samples.{GostStatsSample}
use tyz.Db.{Database, HourlyRow}
use tyz.Db.Statements.{sum-foldl-upsert, foldl-chunk}
use tyz.Traffic.{
  Usage, HourBucket, Fold, delta, bumped, bump, bill, ingest_sample, charge, rule_id_of,
}
use tyz.Traffic.Ingest.{node_rate, hourly_row, same_hour, merge_hour}
use tyz.Traffic.Writes.{write_ledger}
use tyz.Traffic.Authorization.{bill_cases}

abbrev pub bucket_upload : JsMap ℕ HourBucket → ℕ
bucket_upload buckets = sum_of (λ e. e.1.upload) buckets

abbrev pub bucket_download : JsMap ℕ HourBucket → ℕ
bucket_download buckets = sum_of (λ e. e.1.download) buckets

bumped_lem :
    (rule_id owner : ℕ) (hour_ts : Text) (d : Usage) (b : Option HourBucket)
    → ((bumped rule_id owner hour_ts d b).upload ≡ value_at (λ x. x.upload) b + d.upload)
      × ((bumped rule_id owner hour_ts d b).download ≡ value_at (λ x. x.download) b + d.download)
unfolding bumped
bumped_lem rule_id owner hour_ts d none = omega arith
bumped_lem rule_id owner hour_ts d (some b) = omega arith

sum-bump :
    (rule_id owner : ℕ) (hour_ts : Text) (d : Usage) (buckets : JsMap ℕ HourBucket)
    → (bucket_upload (bump rule_id owner hour_ts d buckets) ≡ bucket_upload buckets + d.upload)
      × (bucket_download (bump rule_id owner hour_ts d buckets)
          ≡ bucket_download buckets + d.download)
unfolding bump
sum-bump rule_id owner hour_ts d buckets =
    let old = Map.get buckets rule_id in
    let new = bumped rule_id owner hour_ts d old in
    omega (
      arith,
      bumped_lem rule_id owner hour_ts d old,
      sum-set (λ (b : HourBucket). b.upload) buckets rule_id new,
      sum-set (λ (b : HourBucket). b.download) buckets rule_id new,
    )

module _ (owner_of : JsMap ℕ ℕ) (hour_ts : Text) where
  sum-bill :
      (service : Text) (d : Usage) (buckets : JsMap ℕ HourBucket)
      → (bucket_upload (bill owner_of hour_ts service d buckets) ≤ bucket_upload buckets + d.upload)
        × (bucket_download (bill owner_of hour_ts service d buckets)
            ≤ bucket_download buckets + d.download)
  sum-bill service d buckets =
      bill_cases owner_of hour_ts
        (λ m.
          (bucket_upload m ≤ bucket_upload buckets + d.upload)
          × (bucket_download m ≤ bucket_download buckets + d.download))
        service d buckets (omega arith)
        λ owner _. omega (arith, sum-bump (rule_id_of service) owner hour_ts d buckets)

  -- The rules are never billed more than the node itself reports.
  pub fold-billed-le :
      (samples : List GostStatsSample) (st : Fold)
      → let st' = foldl (ingest_sample owner_of hour_ts) st samples in
        (bucket_upload st'.buckets + st.node_ingress ≤ bucket_upload st.buckets + st'.node_ingress)
        × (bucket_download st'.buckets + st.node_egress
            ≤ bucket_download st.buckets + st'.node_egress)
  unfolding ingest_sample
  fold-billed-le [] st = omega arith
  fold-billed-le (s ∷ samples) st = omega (
    arith,
    fold-billed-le samples (ingest_sample owner_of hour_ts st s),
    sum-bill s.service (delta (Map.get st.last s.service) s) st.buckets,
  )

-- The four columns of the ledger.
pub record LedgerTotals : Type 0 where
  pub real_upload : ℕ
  pub real_download : ℕ
  pub billed_upload : ℕ
  pub billed_download : ℕ

abbrev pub ledger_totals : Database → LedgerTotals
ledger_totals db = record {
  real_upload = sum_of (λ (h : HourlyRow). h.real_upload) db.traffic_hourly;
  real_download = sum_of (λ (h : HourlyRow). h.real_download) db.traffic_hourly;
  billed_upload = sum_of (λ (h : HourlyRow). h.billed_upload) db.traffic_hourly;
  billed_download = sum_of (λ (h : HourlyRow). h.billed_download) db.traffic_hourly;
}

-- The totals with the buckets added: the real bytes, and each bucket charged at the rate.
abbrev pub add_buckets : ℕ → List HourBucket → LedgerTotals → LedgerTotals
add_buckets rate buckets t = record {
  real_upload = t.real_upload + sum_of (λ b. b.upload) buckets;
  real_download = t.real_download + sum_of (λ b. b.download) buckets;
  billed_upload = t.billed_upload + sum_of (λ b. charge rate b.upload) buckets;
  billed_download = t.billed_download + sum_of (λ b. charge rate b.download) buckets;
}

module _ (node_id : ℕ) where
  column-write_ledger :
      (f : HourlyRow → ℕ)
      → ((old row : HourlyRow) → f (merge_hour old row) ≡ f old + f row)
      → (buckets : List HourBucket) (db : Database)
      → sum_of f (write_ledger node_id buckets db).traffic_hourly
        ≡ sum_of f db.traffic_hourly
          + sum_of (λ b. f (hourly_row node_id (node_rate db node_id) b)) buckets
  unfolding write_ledger
  column-write_ledger f adds [] db = omega arith
  column-write_ledger f adds (b ∷ buckets) db =
      let rows = map (hourly_row node_id (node_rate db node_id)) (b ∷ buckets) in
      rw foldl-chunk (
        sum-foldl-upsert same_hour merge_hour f adds rows db.traffic_hourly
        ∙ ap (λ t. sum_of f db.traffic_hourly + t)
            (sum-map f (hourly_row node_id (node_rate db node_id)) (b ∷ buckets)))

  pub totals-write_ledger :
      (buckets : List HourBucket) (db : Database)
      → ledger_totals (write_ledger node_id buckets db)
        ≡ add_buckets (node_rate db node_id) buckets (ledger_totals db)
  unfolding hourly_row merge_hour
  totals-write_ledger buckets db = λ i. record {
    real_upload = column-write_ledger (λ h. h.real_upload) (λ old row. refl) buckets db i;
    real_download = column-write_ledger (λ h. h.real_download) (λ old row. refl) buckets db i;
    billed_upload = column-write_ledger (λ h. h.billed_upload) (λ old row. refl) buckets db i;
    billed_download = column-write_ledger (λ h. h.billed_download) (λ old row. refl) buckets db i;
  }
