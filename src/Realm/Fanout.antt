-- ===== src/Realm/Fanout.antt =====
-- apps/server/src/services/recompute.ts: which nodes are recomputed after a write, and which agents
-- hear of it. The recomputations of one tunnel, which the code starts together, run in the order of
-- the rows; a failure of the database is not modelled.
use tyz.Prelude.{
  ℕ, Bool, none, some, List, [], ◌∷◌, ◌++◌, Text, foldl, map, filter, if◌then◌else◌, ◌==◌, nat_eq,
}
use tyz.Js.Map.{distinct}
use tyz.Entities.{Chain, RelayRule, RealmNodeConfig}
use tyz.Db.{Database}
use tyz.Tls.{Issuer}
use tyz.Quota.{is_owned_by}
use tyz.Realm.Build.{Comparison}
use tyz.Realm.Snapshot.{recompute_node_config}

module _ (issuer : Issuer) (locale_compare : Text → Text → Comparison)
    (stringify : RealmNodeConfig → Text) (epoch : ℕ) (now : Text) where
  -- The result, the database, and the nodes that are notified.
  unfoldable pub recompute_and_notify : Database → ℕ → Bool × Database × List ℕ
  unfolding recompute_node_config
  recompute_and_notify db node_id =
      let r = recompute_node_config issuer locale_compare stringify db node_id epoch now in
      (r.0.ok, r.1, if r.0.changed then node_id ∷ [] else [])

  -- One node of a tunnel, and the changed nodes so far.
  unfoldable pub recompute_next : Database × List ℕ → ℕ → Database × List ℕ
  recompute_next (db, changed) node_id =
      let r = recompute_node_config issuer locale_compare stringify db node_id epoch now in
      (r.1, if r.0.changed then changed ++ node_id ∷ [] else changed)

  unfoldable pub tunnel_nodes : Database → ℕ → List ℕ
  tunnel_nodes db tunnel_id =
      distinct (
        map (λ (c : Chain). c.node_id) (filter (λ (c : Chain). c.tunnel_id == tunnel_id) db.chains))

  unfoldable pub recompute_tunnel_nodes : Database → ℕ → Database × List ℕ
  unfolding recompute_next tunnel_nodes
  recompute_tunnel_nodes db tunnel_id = foldl recompute_next (db, []) (tunnel_nodes db tunnel_id)

  -- The tunnels of the user's rules.
  unfoldable pub user_tunnels : List RelayRule → List ℕ
  user_tunnels [] = []
  user_tunnels (r ∷ rules) =
      let rest = user_tunnels rules in elim r.tunnel_id [ none ↦ rest | some t ↦ t ∷ rest ]

  unfoldable pub recompute_user_tunnel : Database × List ℕ → ℕ → Database × List ℕ
  unfolding recompute_tunnel_nodes
  recompute_user_tunnel (db, notified) tunnel_id =
      let r = recompute_tunnel_nodes db tunnel_id in (r.0, notified ++ r.1)

  unfoldable pub recompute_user_nodes : Database → ℕ → Database × List ℕ
  unfolding recompute_user_tunnel user_tunnels
  recompute_user_nodes db user_id =
      foldl recompute_user_tunnel (db, [])
        (distinct (user_tunnels (filter (is_owned_by user_id) db.relay_rules)))
