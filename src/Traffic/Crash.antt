-- ===== src/Traffic/Crash.antt =====
-- One batch against the ledger, and a crash between any two of its writes.
use tyz.Prelude.{
  zero, suc, ◌∙◌, ◌++◌, ◌⊎◌, inl, inr, take, All, map, All-append, ℕ, ◌≤◌, ◌≡◌, refl, ap, some,
  List, [], ◌∷◌, arith, Text, sum_of, sum-map,
}
use tyz.Samples.{GostStatsSample}
use tyz.Db.Statements.{chunk}
use tyz.Db.{Database}
use tyz.Traffic.{hour_floor_iso, HourBucket, Fold, last_counters, billable_owners}
use tyz.Traffic.Ingest.{
  node_rate, observe_node, hourly_row, counter_row, ledger_writes, counter_writes, rule_writes,
  put_ledger, put_counters, put_observed, fold_writes, run, fold_samples, start_fold, batch_owners,
  bucket_list, write_fold, ingest_service_samples,
}
use tyz.Traffic.Writes.{
  write_ledger, write_counters, observe_rules, write_fold-in_order, run-ledger_writes,
}
use tyz.Traffic.Ledger.{ledger_totals, add_buckets, totals-write_ledger, fold-billed-le}

hourly-observe_node :
    (node_id ingress egress : ℕ) (db : Database)
    → (observe_node node_id ingress egress db).traffic_hourly ≡ db.traffic_hourly
unfolding observe_node
hourly-observe_node node_id ingress egress db = ground arith

totals-write_fold :
    (node_id : ℕ) (now : Text) (st : Fold) (db : Database)
    → ledger_totals (write_fold node_id now st db)
      ≡ add_buckets (node_rate db node_id) (bucket_list st) (ledger_totals db)
unfolding observe_rules write_counters
totals-write_fold node_id now st db =
    let ledger = write_ledger node_id (bucket_list st) db in
    let counters = write_counters node_id now st.counter_updates ledger in
    let seen =
      hourly-observe_node node_id st.node_ingress st.node_egress
        (observe_rules (bucket_list st) counters) in
    rw (write_fold-in_order node_id now st db, seen)
      (totals-write_ledger node_id (bucket_list st) db)

-- The ledger's four totals grow by exactly the buckets of the batch, each charged at the node's
-- rate, and the buckets hold no more than the batch adds to the node's own totals.
pub ingest-ledger :
    (db : Database) (node_id : ℕ) (tunnels : List ℕ) (now : Text) (samples : List GostStatsSample)
    → let st = fold_samples db node_id tunnels now samples in
      (ledger_totals (ingest_service_samples node_id (some tunnels) now samples db).0
        ≡ add_buckets (node_rate db node_id) (bucket_list st) (ledger_totals db))
      × (sum_of (λ b. b.upload) (bucket_list st) ≤ st.node_ingress)
      × (sum_of (λ b. b.download) (bucket_list st) ≤ st.node_egress)
unfolding ingest_service_samples fold_samples
ingest-ledger db node_id tunnels now [] = (ground arith, omega arith, omega arith)
ingest-ledger db node_id tunnels now (s ∷ samples) =
    let st = fold_samples db node_id tunnels now (s ∷ samples) in
    let le =
      fold-billed-le (batch_owners db tunnels (s ∷ samples)) (hour_floor_iso now) (s ∷ samples)
        (start_fold db node_id (s ∷ samples)) in
    (
      totals-write_fold node_id now st db,
      omega (
        arith,
        le,
        sum-map (λ (b : HourBucket). b.upload) (λ (e : ℕ × HourBucket). e.1) st.buckets,
      ),
      omega (
        arith,
        le,
        sum-map (λ (b : HourBucket). b.download) (λ (e : ℕ × HourBucket). e.1) st.buckets,
      ),
    )

-- Everything but the ledger.
abbrev beside : Database → Database
beside db = record db { traffic_hourly = [] }

abbrev SparesRest : (Database → Database) → Type 0
SparesRest write = (db : Database) → beside (write db) ≡ beside db

abbrev SparesLedger : (Database → Database) → Type 0
SparesLedger write = (db : Database) → (write db).traffic_hourly ≡ db.traffic_hourly

run-SparesLedger :
    (k : ℕ) (writes : List (Database → Database)) (db : Database)
    → All SparesLedger writes
    → (run (take k writes) db).traffic_hourly ≡ db.traffic_hourly
run-SparesLedger zero writes db h = refl
run-SparesLedger (suc k) [] db h = refl
run-SparesLedger (suc k) (w ∷ writes) db h = run-SparesLedger k writes (w db) h.1 ∙ h.0 db

-- A run that stops anywhere has either touched the ledger alone or has written all of it.
run-prefix :
    (k : ℕ) (ledger rest : List (Database → Database)) (db : Database)
    → All SparesRest ledger
    → All SparesLedger rest
    → (beside (run (take k (ledger ++ rest)) db) ≡ beside db)
      ⊎ ((run (take k (ledger ++ rest)) db).traffic_hourly ≡ (run ledger db).traffic_hourly)
run-prefix k [] rest db spares keeps = inr (run-SparesLedger k rest db keeps)
run-prefix zero (w ∷ ledger) rest db spares keeps = inl refl
run-prefix (suc k) (w ∷ ledger) rest db spares keeps =
    elim (run-prefix k ledger rest (w db) spares.1 keeps) [
      | inl same ↦ inl (same ∙ spares.0 db)
      | inr full ↦ inr full
    ]

each_write {ℓ} :
    {A : Type ℓ} (P : (Database → Database) → Type 0) (put : A → Database → Database)
    → ((x : A) → P (put x))
    → (xs : List A) → All P (map put xs)
each_write P put h [] = tt
each_write P put h (x ∷ xs) = (h x, each_write P put h xs)

ledger_writes-SparesRest :
    (node_id : ℕ) (buckets : List HourBucket) (db : Database)
    → All SparesRest (ledger_writes node_id buckets db)
unfolding ledger_writes
ledger_writes-SparesRest node_id buckets db =
    each_write SparesRest put_ledger (λ part db. refl)
      (chunk (map (hourly_row node_id (node_rate db node_id)) buckets) 12)

later_writes-SparesLedger :
    (node_id : ℕ) (now : Text) (st : Fold)
    → All SparesLedger (
        counter_writes node_id now st.counter_updates
        ++ (rule_writes (bucket_list st)
            ++ observe_node node_id st.node_ingress st.node_egress ∷ []))
unfolding counter_writes rule_writes
later_writes-SparesLedger node_id now st =
    let counters = counter_writes node_id now st.counter_updates in
    let rules = rule_writes (bucket_list st) in
    let last = observe_node node_id st.node_ingress st.node_egress ∷ [] in
    let counted =
      each_write SparesLedger put_counters (λ part db. refl)
        (chunk (map (counter_row node_id now) st.counter_updates) 16) in
    let seen = each_write SparesLedger put_observed (λ part db. refl) (chunk (bucket_list st) 16) in
    let node : All SparesLedger last =
      (hourly-observe_node node_id st.node_ingress st.node_egress, tt) in
    All-append SparesLedger counters (rules ++ last) counted
      (All-append SparesLedger rules last seen node)

-- What a fold reads stands beside the ledger.
fold_samples-beside :
    (a b : Database) (node_id : ℕ) (tunnels : List ℕ) (now : Text) (samples : List GostStatsSample)
    → beside a ≡ beside b
    → fold_samples a node_id tunnels now samples ≡ fold_samples b node_id tunnels now samples
unfolding fold_samples last_counters billable_owners
fold_samples-beside a b node_id tunnels now samples same =
    ap (λ db. fold_samples db node_id tunnels now samples) same

-- Wherever the process stops between the writes of a report, the ledger loses nothing: either it
-- holds the report's buckets in full, or the next report, whatever it holds, is counted from the
-- counters and rules of before as if the stopped one had not come. In both cases the next report
-- adds its own buckets in full to what the ledger holds.
pub crash_retry :
    (db : Database) (node_id : ℕ) (tunnels : List ℕ) (now later : Text)
    (samples next : List GostStatsSample) (k : ℕ)
    → let st = fold_samples db node_id tunnels now samples in
      let stopped = run (take k (fold_writes node_id now st db)) db in
      ((ledger_totals stopped
          ≡ add_buckets (node_rate db node_id) (bucket_list st) (ledger_totals db))
        ⊎ (fold_samples stopped node_id tunnels later next
            ≡ fold_samples db node_id tunnels later next))
      × (ledger_totals (ingest_service_samples node_id (some tunnels) later next stopped).0
          ≡ add_buckets
              (node_rate stopped node_id)
              (bucket_list (fold_samples stopped node_id tunnels later next))
              (ledger_totals stopped))
unfolding fold_writes
crash_retry db node_id tunnels now later samples next k =
    let st = fold_samples db node_id tunnels now samples in
    let stopped = run (take k (fold_writes node_id now st db)) db in
    let buckets = bucket_list st in
    (
      elim (run-prefix k (ledger_writes node_id buckets db) _ db
          (ledger_writes-SparesRest node_id buckets db)
          (later_writes-SparesLedger node_id now st)) [
            | inl same ↦ inr (fold_samples-beside stopped db node_id tunnels later next same)
            | inr full ↦ inl (
                ap (λ rows. ledger_totals (record db { traffic_hourly = rows })) full
                ∙ ap ledger_totals (run-ledger_writes node_id buckets db)
                ∙ totals-write_ledger node_id buckets db)
          ],
      (ingest-ledger stopped node_id tunnels later next).0,
    )
