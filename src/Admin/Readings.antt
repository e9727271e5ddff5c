-- ===== src/Admin/Readings.antt =====
-- apps/server/src/routes/admin.ts: what a node last reported of its services, and the recomputation
-- that an operator asks for and waits for.
use tyz.Prelude.{ℕ, not, ◌&&◌, List, [], Text, filter, if◌then◌else◌, ◌==◌, nat_eq, text_eq}
use tyz.Js.Text.{codes}
use tyz.Entities.{RealmNodeConfig}
use tyz.Db.{Database, HealthRow}
use tyz.Tls.{Issuer}
use tyz.Health.{heartbeat_service}
use tyz.Realm.Build.{Comparison}
use tyz.Realm.Fanout.{recompute_and_notify}
use tyz.Admin.{Response, refuse, respond}

-- The row of the heartbeat itself is left out.
unfoldable pub node_health : Database → ℕ → List HealthRow
node_health db id =
    filter (λ (row : HealthRow). row.node_id == id && not (row.service == heartbeat_service))
      db.service_health

module _ (issuer : Issuer) (locale_compare : Text → Text → Comparison)
    (stringify : RealmNodeConfig → Text) (epoch : ℕ) (now : Text) where
  -- With the nodes that hear of a changed config.
  unfoldable pub recompute_route : ℕ → Database → Response (Unit {0}) × List ℕ
  unfolding recompute_and_notify
  recompute_route id db =
      let r = recompute_and_notify issuer locale_compare stringify epoch now db id in
      (if r.0 then respond tt r.1 [] else refuse 404 (codes "node not found") r.1, r.2)
