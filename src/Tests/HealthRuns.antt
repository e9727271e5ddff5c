-- ===== src/Tests/HealthRuns.antt =====
-- A heartbeat of node 1, which serves rules 100 and 8, of which 8 is paused.
use tyz.Prelude.{ℕ, ◌≡◌, refl, none, List, [], ◌∷◌, ◌++◌, filter, map, ◌==◌, nat_eq, text_eq}
use tyz.Js.Map
use tyz.Js.Map.{has}
use tyz.Js.Text.{codes}
use tyz.Js.Text.Decimal
use tyz.Entities.{RelayRule, paused, running, created}
use tyz.Samples.{ServiceHealthSample}
use tyz.Db.{Database}
use tyz.Db.Statements.{chunk, upsert}
use tyz.Traffic.{service_digits, node_rule_tunnels}
use tyz.Health.{
  ingest_health_snapshot, reported_services, write_statuses, current_statuses, drop_stale, stamp,
}
use tyz.Health.Rules.{is_paused, ingest_health_snapshot-paused, ingest_health_snapshot-foreign}
use tyz.Health.Snapshot.{has_row, ingest_health_snapshot-services}
use tyz.Tests.Fixtures.{time, db, rule}

abbrev health : ℕ → ServiceHealthSample
health rule_id = record {
  service = codes "service-" ++ Decimal.show rule_id;
  state = codes "ready";
  error = none;
}

abbrev beat : List ServiceHealthSample
beat = health 100 ∷ health 8 ∷ health 7 ∷ []

-- A row of a service that is gone, and a paused rule.
abbrev before : Database
before = record db {
  relay_rules =
      rule 100 10 none ∷ record (rule 8 10 none) { status = paused } ∷ rule 7 11 none ∷ [];
  service_health =
      record {
        node_id = 1;
        service = codes "service-5";
        state = codes "ready";
        error = none;
        reported_at = time;
      }
      ∷ [];
}

heartbeat : Unit {0}
unfolding ingest_health_snapshot write_statuses current_statuses node_rule_tunnels drop_stale stamp
    service_digits Map.add chunk upsert Map.get Map.set Decimal.number Decimal.is_digits
    Decimal.show
heartbeat = tt

-- Rule 100 runs, 8 stays paused, and 7, on another node's tunnel, stays as it was created.
statuses_after :
    map (λ (r : RelayRule). r.status) (ingest_health_snapshot before 1 beat time).relay_rules
    ≡ running ∷ paused ∷ created ∷ []
unfolding heartbeat
statuses_after = refl

ingest_health_snapshot-paused_example :
    filter is_paused (ingest_health_snapshot before 1 beat time).relay_rules
    ≡ filter is_paused before.relay_rules
ingest_health_snapshot-paused_example = ingest_health_snapshot-paused before 1 beat time

ingest_health_snapshot-foreign_example :
    filter (λ (r : RelayRule). r.id == 7) (ingest_health_snapshot before 1 beat time).relay_rules
    ≡ filter (λ (r : RelayRule). r.id == 7) before.relay_rules
unfolding heartbeat
ingest_health_snapshot-foreign_example = ingest_health_snapshot-foreign 7 before 1 beat time refl

ingest_health_snapshot-services_example :
    has_row (ingest_health_snapshot before 1 beat time).service_health 1 (codes "service-5")
    ≡ has (reported_services beat) (codes "service-5")
ingest_health_snapshot-services_example =
    ingest_health_snapshot-services 1 (codes "service-5") before beat time
