-- ===== src/Traffic/Foreign.antt =====
-- The billing gate of `ingestTraffic`, as the database sees it.
use tyz.Prelude.{
  ℕ, ◌≡◌, refl, ap, ◌∙◌, Bool, false, Option, List, [], ◌∷◌, foldl, map, arith, Text, nat_eq,
  text_eq, ◌==◌, ==_iff, filter, All, All-map, All-imp, All-and, or_else,
}
use tyz.Js.Map
use tyz.Js.Map.{JsMap, has, All-of_get-none, has-keys}
use tyz.Entities.{RelayRule}
use tyz.Samples.{GostStatsSample}
use tyz.Db.{Database, HourlyRow}
use tyz.Db.Statements.{chunk, All-All-chunk, filter-foldl-upsert, foldl-chunk}
use tyz.Traffic.{Fold, node_rule_tunnels, hour_floor_iso, HourBucket, is_service_level}
use tyz.Traffic.Ingest.{
  rollup_service_metrics, node_rate, hourly_row, same_hour, merge_hour, observe_part, observe_node,
  fold_samples, start_fold, batch_owners, batch_rule_ids, bucket_list, billed_ids, write_fold,
  ingest_service_samples, ingest_traffic,
}
use tyz.Traffic.Writes.{write_ledger, write_counters, observe_rules, write_fold-in_order}
use tyz.Traffic.Authorization.{is_served, billable_owners-none, fold-none, fold-IsKeyed}

module _ (id : ℕ) where
  abbrev of_rule : HourlyRow → Bool
  of_rule h = h.rule_id == id

  abbrev is_rule : RelayRule → Bool
  is_rule r = r.id == id

  abbrev IsForeign : List HourBucket → Type 0
  IsForeign buckets = All (λ b. (b.rule_id == id) ≡ false) buckets

  hourly-write_ledger :
      (node_id : ℕ) (buckets : List HourBucket) (db : Database)
      → IsForeign buckets
      → filter of_rule (write_ledger node_id buckets db).traffic_hourly
        ≡ filter of_rule db.traffic_hourly
  unfolding write_ledger
  hourly-write_ledger node_id [] db h = refl
  hourly-write_ledger node_id (b ∷ buckets) db h = rw foldl-chunk (
      filter-foldl-upsert same_hour merge_hour of_rule
        (λ old row s p. ground (arith, ==_iff old.rule_id row.rule_id))
        (map (hourly_row node_id (node_rate db node_id)) (b ∷ buckets)) db.traffic_hourly
        (All-map (λ row. of_rule row ≡ false) (hourly_row node_id (node_rate db node_id))
          (b ∷ buckets) h))

  filter-observe_part :
      (rules : List RelayRule) (part : List HourBucket)
      → IsForeign part
      → filter is_rule (observe_part rules part) ≡ filter is_rule rules
  unfolding observe_part
  filter-observe_part [] part h = refl
  filter-observe_part (r ∷ rules) part h =
      ground (arith, filter-observe_part rules part h, ==_iff r.id id, not-has part h)
    where
      not-has :
          (l : List HourBucket)
          → IsForeign l
          → has (map (λ (b : HourBucket). b.rule_id) l) id ≡ false
      not-has [] k = refl
      not-has (b ∷ l) k = ground (arith, not-has l k.1)

  filter-observe_rules :
      (buckets : List HourBucket) (db : Database)
      → IsForeign buckets
      → filter is_rule (observe_rules buckets db).relay_rules ≡ filter is_rule db.relay_rules
  unfolding observe_rules
  filter-observe_rules buckets db h =
      parts (chunk buckets 16) db.relay_rules
        (All-All-chunk (λ b. (b.rule_id == id) ≡ false) buckets 16 h)
    where
      parts :
          (l : List (List HourBucket)) (rules : List RelayRule)
          → All IsForeign l
          → filter is_rule (foldl observe_part rules l) ≡ filter is_rule rules
      parts [] rules k = refl
      parts (part ∷ l) rules k =
          parts l (observe_part rules part) k.1 ∙ filter-observe_part rules part k.0

  rules-observe_node :
      (node_id ingress egress : ℕ) (db : Database)
      → ((observe_node node_id ingress egress db).relay_rules ≡ db.relay_rules)
        × ((observe_node node_id ingress egress db).traffic_hourly ≡ db.traffic_hourly)
  unfolding observe_node
  rules-observe_node node_id ingress egress db = ground arith

  rules-write_ledger :
      (node_id : ℕ) (buckets : List HourBucket) (db : Database)
      → (write_ledger node_id buckets db).relay_rules ≡ db.relay_rules
  unfolding write_ledger
  rules-write_ledger node_id [] db = refl
  rules-write_ledger node_id (b ∷ buckets) db = refl

  write_fold-IsForeign :
      (node_id : ℕ) (now : Text) (st : Fold) (db : Database)
      → IsForeign (bucket_list st)
      → (filter of_rule (write_fold node_id now st db).traffic_hourly
          ≡ filter of_rule db.traffic_hourly)
        × (filter is_rule (write_fold node_id now st db).relay_rules
            ≡ filter is_rule db.relay_rules)
  unfolding write_counters
  write_fold-IsForeign node_id now st db h =
      let ledger = write_ledger node_id (bucket_list st) db in
      let counters = write_counters node_id now st.counter_updates ledger in
      let seen =
        rules-observe_node node_id st.node_ingress st.node_egress
          (observe_rules (bucket_list st) counters) in
      rw (write_fold-in_order node_id now st db) (
        ap (filter of_rule) seen.1
            ∙ (unfold observe_rules in hourly-write_ledger node_id (bucket_list st) db h),
        ap (filter is_rule) seen.0
            ∙ filter-observe_rules (bucket_list st) counters h
            ∙ ap (filter is_rule) (rules-write_ledger node_id (bucket_list st) db),
      )

  fold-IsForeign :
      (db : Database) (node_id : ℕ) (tunnels : List ℕ) (now : Text) (samples : List GostStatsSample)
      → is_served db tunnels id ≡ false
      → let st = fold_samples db node_id tunnels now samples in
        IsForeign (bucket_list st) × (has (billed_ids st) id ≡ false)
  unfolding fold_samples Map.get
  fold-IsForeign db node_id tunnels now samples h =
      let owners = batch_owners db tunnels samples in
      let st = fold_samples db node_id tunnels now samples in
      let unowned = billable_owners-none tunnels id db (batch_rule_ids samples) h in
      let unbilled =
        fold-none owners (hour_floor_iso now) id samples (start_fold db node_id samples) unowned
          refl in
      let keyed =
        fold-IsKeyed owners (hour_floor_iso now) samples (start_fold db node_id samples) tt in
      (
        All-map (λ b. (b.rule_id == id) ≡ false) (λ e. e.1) st.buckets
            (All-imp (λ e. (e.1.rule_id ≡ e.0) × ((e.0 == id) ≡ false))
              (λ e. (e.1.rule_id == id) ≡ false) (λ e k. rw k.0 k.1) st.buckets
              (All-and (λ e. e.1.rule_id ≡ e.0) (λ e. (e.0 == id) ≡ false) st.buckets keyed
                (All-of_get-none st.buckets id unbilled))),
        has-keys st.buckets id unbilled,
      )

  ingest_service_samples-IsForeign :
      (node_id : ℕ) (tunnels : Option (List ℕ)) (now : Text) (samples : List GostStatsSample)
      (db : Database)
      → is_served db (or_else tunnels (node_rule_tunnels db node_id)) id ≡ false
      → let r = ingest_service_samples node_id tunnels now samples db in
        (filter of_rule r.0.traffic_hourly ≡ filter of_rule db.traffic_hourly)
        × (filter is_rule r.0.relay_rules ≡ filter is_rule db.relay_rules)
        × (has r.1 id ≡ false)
  unfolding ingest_service_samples
  ingest_service_samples-IsForeign node_id tunnels now [] db h = (refl, refl, refl)
  ingest_service_samples-IsForeign node_id tunnels now (s ∷ samples) db h =
      let rule_tunnels = or_else tunnels (node_rule_tunnels db node_id) in
      let st = fold_samples db node_id rule_tunnels now (s ∷ samples) in
      let (foreign, unbilled) = fold-IsForeign db node_id rule_tunnels now (s ∷ samples) h in
      let (hourly, rules) = write_fold-IsForeign node_id now st db foreign in
      (hourly, rules, unbilled)

  -- The rollup before it touches neither the ledger, the rules nor the links.
  rolled-IsForeign :
      (node_id : ℕ) (tunnels : Option (List ℕ)) (rollup_now now : Text)
      (samples : List GostStatsSample) (db : Database)
      → is_served db (or_else tunnels (node_rule_tunnels db node_id)) id ≡ false
      → let r =
          ingest_service_samples node_id tunnels now samples
            (rollup_service_metrics db node_id samples rollup_now) in
        (filter of_rule r.0.traffic_hourly ≡ filter of_rule db.traffic_hourly)
        × (filter is_rule r.0.relay_rules ≡ filter is_rule db.relay_rules)
        × (has r.1 id ≡ false)
  unfolding rollup_service_metrics node_rule_tunnels
  rolled-IsForeign node_id tunnels rollup_now now [] db h =
      ingest_service_samples-IsForeign node_id tunnels now [] db h
  rolled-IsForeign node_id tunnels rollup_now now (s ∷ samples) db h =
      ingest_service_samples-IsForeign node_id tunnels now (s ∷ samples)
        (rollup_service_metrics db node_id (s ∷ samples) rollup_now) h

  -- A rule that stands on none of the node's tunnels keeps its ledger rows and its observation
  -- counters, and is not among the billed ids, whatever the node reports: forged service names
  -- included. The node's tunnels are those passed in, or else those of its in and out links.
  pub ingest_traffic-foreign :
      (db : Database) (node_id : ℕ) (samples : List GostStatsSample) (tunnels : Option (List ℕ))
      (rollup_now now : Text)
      → is_served db (or_else tunnels (node_rule_tunnels db node_id)) id ≡ false
      → let r = ingest_traffic db node_id samples tunnels rollup_now now in
        (filter (λ h. h.rule_id == id) r.0.traffic_hourly
          ≡ filter (λ h. h.rule_id == id) db.traffic_hourly)
        × (filter (λ x. x.id == id) r.0.relay_rules ≡ filter (λ x. x.id == id) db.relay_rules)
        × (has r.1 id ≡ false)
  unfolding ingest_traffic
  ingest_traffic-foreign db node_id samples tunnels rollup_now now h =
      rolled-IsForeign node_id tunnels rollup_now now (filter is_service_level samples) db h
