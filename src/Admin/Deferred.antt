-- ===== src/Admin/Deferred.antt =====
-- apps/server/src/routes/admin.ts: the work that a handler defers, done on the database that the
-- handler left. A failure of that work is not modelled.
use tyz.Prelude.{
  ℕ, ◌≡◌, refl, ◌∙◌, false, not, ◌&&◌, some, List, [], ◌++◌, Text, foldl, map, filter, any, ◌==◌,
  nat_eq, Bool-cases, inl, inr,
}
use tyz.Js.Map.{has, distinct, has-distinct}
use tyz.Entities.{RealmNodeConfig, Chain}
use tyz.Db.{Database, TunnelRow}
use tyz.Tls.{Issuer}
use tyz.Realm.Build.{Comparison}
use tyz.Realm.Snapshot.{get_node_config_snapshot}
use tyz.Realm.Fanout.{
  recompute_and_notify, tunnel_nodes, recompute_tunnel_nodes, recompute_user_nodes,
}
use tyz.Realm.Notified.{recompute_tunnel_nodes-other}
use tyz.Admin.{
  Work, recompute_node, recompute_tunnel, recompute_user, restart_service, recompute_tls_nodes,
  Response,
}
use tyz.Admin.Shape.{on_tunnel}
use tyz.Admin.Chains.{get_chain, is_complete_tls, delete_chain}

-- The nodes of the links whose tunnel has TLS on.
unfoldable pub tls_nodes : Database → List ℕ
tls_nodes db = distinct (
    map (λ (c : Chain). c.node_id)
      (filter
        (λ (c : Chain). any (λ (t : TunnelRow). t.id == c.tunnel_id && t.tls_enabled) db.tunnels)
        db.chains))

module _ (issuer : Issuer) (locale_compare : Text → Text → Comparison)
    (stringify : RealmNodeConfig → Text) (epoch : ℕ) (now : Text) where
  abbrev recompute_one : Database × List ℕ → ℕ → Database × List ℕ
  recompute_one (db, notified) node_id =
      let r = recompute_and_notify issuer locale_compare stringify epoch now db node_id in
      (r.1, notified ++ r.2)

  -- The database after the work, and the nodes that hear of a changed config.
  unfoldable pub run_work : Database × List ℕ → Work → Database × List ℕ
  unfolding recompute_and_notify recompute_tunnel_nodes recompute_user_nodes tls_nodes
  run_work (db, notified) (recompute_node id) = recompute_one (db, notified) id
  run_work (db, notified) (recompute_tunnel id) =
      let r = recompute_tunnel_nodes issuer locale_compare stringify epoch now db id in
      (r.0, notified ++ r.1)
  run_work (db, notified) (recompute_user id) =
      let r = recompute_user_nodes issuer locale_compare stringify epoch now db id in
      (r.0, notified ++ r.1)
  run_work (db, notified) (restart_service node_ids service) = (db, notified)
  run_work (db, notified) recompute_tls_nodes = foldl recompute_one (db, notified) (tls_nodes db)

  unfoldable pub finish {ℓ} : {A : Type ℓ} → Response A → Database × List ℕ
  unfolding run_work
  finish r = foldl run_work (r.db, []) r.work

  -- The work that the deletion of a link defers reads the links that are left: a node whose only
  -- link on the tunnel was the deleted one is not recomputed and keeps its stored config, version
  -- included.
  pub delete_chain-leaves_behind :
      (db : Database) (id : ℕ) (deleted : Chain)
      → get_chain db id ≡ some deleted
      → has
          (map
            (λ (c : Chain). c.node_id)
            (filter
              (on_tunnel deleted.tunnel_id)
              (filter (λ (c : Chain). not (c.id == id)) db.chains)))
          deleted.node_id
        ≡ false
      → get_node_config_snapshot (finish (delete_chain id db)).0 deleted.node_id
        ≡ get_node_config_snapshot db deleted.node_id
  unfolding finish run_work delete_chain get_node_config_snapshot tunnel_nodes
  delete_chain-leaves_behind db id deleted found alone =
      elim (Bool-cases (is_complete_tls db deleted.tunnel_id)) [
        | inl complete ↦ rw (delete_chain, found, complete) refl
        | inr open_ended ↦
            let left : List Chain = filter (λ (c : Chain). not (c.id == id)) db.chains in
            let nodes =
              map (λ (c : Chain). c.node_id) (filter (on_tunnel deleted.tunnel_id) left) in
            rw (delete_chain, found, open_ended)
              (recompute_tunnel_nodes-other issuer locale_compare stringify epoch now
                (record db { chains = left }) deleted.tunnel_id deleted.node_id
                (has-distinct nodes deleted.node_id ∙ alone))
      ]
