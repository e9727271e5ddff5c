-- ===== src/Health/Snapshot.antt =====
-- What a heartbeat leaves in `service_health`.
use tyz.Prelude.{
  ℕ, ◌≡◌, refl, ap, ◌∙◌, Bool, not, ◌&&◌, ◌||◌, List, [], ◌∷◌, Text, foldl, map, filter, arith,
  ◌==◌, nat_eq, text_eq, any, ==_iff, ==-refl,
}
use mathlib.Core.List.{flatten}
use tyz.Js.Map.{has, has-append, has-filter}
use tyz.Samples.{ServiceHealthSample}
use tyz.Db.{Database, HealthRow}
use tyz.Db.Statements.{chunk, upsert, flatten-chunk, foldl-chunk}
use tyz.Health.{
  heartbeat_row, same_service, merge_health, health_row, stamp, reported_services, stale_services,
  delete_services, drop_stale, write_statuses, ingest_health_snapshot,
}

-- The node has a row for the service.
abbrev pub has_row : List HealthRow → ℕ → Text → Bool
has_row rows node_id service = any (λ row. row.node_id == node_id && row.service == service) rows

module _ (n : ℕ) (s : Text) where
  has_row-upsert :
      (rows : List HealthRow) (row : HealthRow)
      → has_row (upsert same_service merge_health rows row) n s
        ≡ (has_row rows n s || (row.node_id == n && row.service == s))
  unfolding upsert same_service merge_health
  has_row-upsert [] row = ground arith
  has_row-upsert (old ∷ rows) row = ground (
    arith,
    has_row-upsert rows row,
    ==_iff old.node_id row.node_id,
    ==_iff old.service row.service,
  )

  has_row-upserts :
      (health : List ServiceHealthSample) (reported_at : Text) (rows : List HealthRow)
      → has_row
          (foldl (upsert same_service merge_health) rows (map (health_row n reported_at) health))
          n
          s
        ≡ (has_row rows n s || has (map (λ (h : ServiceHealthSample). h.service) health) s)
  unfolding health_row
  has_row-upserts [] reported_at rows = ground arith
  has_row-upserts (h ∷ health) reported_at rows = ground (
    arith,
    has_row-upserts health reported_at
        (upsert same_service merge_health rows (health_row n reported_at h)),
    has_row-upsert rows (health_row n reported_at h),
    ==-refl n,
  )

  has_row-stamp :
      (health : List ServiceHealthSample) (reported_at : Text) (rows : List HealthRow)
      → has_row (stamp n reported_at health rows) n s
        ≡ (has_row rows n s || has (reported_services health) s)
  unfolding stamp reported_services heartbeat_row
  has_row-stamp health reported_at rows =
      let stamped = upsert same_service merge_health rows (heartbeat_row n reported_at) in
      ap (λ l. has_row l n s)
        (foldl-chunk (upsert same_service merge_health) stamped
          (map (health_row n reported_at) health) 15)
      ∙ ground (
        arith,
        has_row-upserts health reported_at stamped,
        has_row-upsert rows (heartbeat_row n reported_at),
        ==-refl n,
      )

  has_row-delete :
      (rows : List HealthRow) (part : List Text)
      → has_row (delete_services n rows part) n s ≡ (has_row rows n s && not (has part s))
  unfolding delete_services
  has_row-delete [] part = ground arith
  has_row-delete (row ∷ rows) part = ground (arith, has_row-delete rows part, ==_iff row.service s)

  has_row-deletes :
      (parts : List (List Text)) (rows : List HealthRow)
      → has_row (foldl (delete_services n) rows parts) n s
        ≡ (has_row rows n s && not (has (flatten parts) s))
  unfolding flatten
  has_row-deletes [] rows = ground arith
  has_row-deletes (part ∷ parts) rows =
      has_row-deletes parts (delete_services n rows part)
      ∙ ground (arith, has_row-delete rows part, has-append part (flatten parts) s)

  has-services_of :
      (rows : List HealthRow)
      → has (map (λ (row : HealthRow). row.service) (filter (λ row. row.node_id == n) rows)) s
        ≡ has_row rows n s
  has-services_of [] = refl
  has-services_of (row ∷ rows) = ground (arith, has-services_of rows)

  has_row-drop_stale :
      (reported : List Text) (rows : List HealthRow)
      → has_row (drop_stale n reported rows) n s ≡ (has_row rows n s && has reported s)
  unfolding drop_stale stale_services
  has_row-drop_stale reported rows =
      let stale = stale_services n reported rows in
      has_row-deletes (chunk stale 90) rows
      ∙ ap (λ l. has_row rows n s && not (has l s)) (flatten-chunk stale 89)
      ∙ ground (
        arith,
        has-filter (λ service. not (has reported service))
            (map (λ (row : HealthRow). row.service) (filter (λ row. row.node_id == n) rows)) s,
        has-services_of rows,
      )

  -- After a heartbeat the node has a row for exactly the services that it reported, and for the
  -- heartbeat itself.
  pub ingest_health_snapshot-services :
      (db : Database) (health : List ServiceHealthSample) (reported_at : Text)
      → has_row (ingest_health_snapshot db n health reported_at).service_health n s
        ≡ has (reported_services health) s
  unfolding ingest_health_snapshot write_statuses
  ingest_health_snapshot-services db health reported_at =
      has_row-drop_stale (reported_services health) (stamp n reported_at health db.service_health)
      ∙ ground (arith, has_row-stamp health reported_at db.service_health)
