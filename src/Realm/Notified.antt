-- ===== src/Realm/Notified.antt =====
-- An agent that hears nothing has missed nothing: what recomputing a tunnel's nodes does to the
-- snapshots of the nodes that are not notified.
use tyz.Prelude.{
  ℕ, ◌≡◌, refl, ap, subst, ◌∙◌, Bool, true, false, not, Option, none, some, List, [], ◌∷◌, ◌++◌,
  Text, foldl, filter, if◌then◌else◌, ◌==◌, nat_eq, text_eq, ◌⊎◌, inl, inr, Option-cases,
  Bool-cases, arith, ==_iff,
}
use tyz.Js.Map.{has, has-append}
use tyz.Entities.{RealmNodeConfig}
use tyz.Db.{Database, NodeConfigRow}
use tyz.Tls.{Issuer}
use tyz.Realm.Build.{Comparison, build_realm_node_config}
use tyz.Realm.Snapshot.{
  RecomputeResult, recompute_node_config, get_node_config_snapshot, upsert_node_config_snapshot,
  delete_node_config_snapshot, store_config,
}
use tyz.Realm.Recompute.{
  row_for, row_for-upsert_other, build-keeps, Moved, Recomputed, recompute_node_config-Recomputed,
}
use tyz.Realm.Fanout.{recompute_next, tunnel_nodes, recompute_tunnel_nodes}

-- As it was, or gone.
abbrev pub IsKept : Option NodeConfigRow → Option NodeConfigRow → Type 0
IsKept before after = (after ≡ before) ⊎ (after ≡ none)

Moved-IsKept :
    (before : Option NodeConfigRow) (changed : Bool) (after : Option NodeConfigRow)
    → Moved before changed after
    → changed ≡ false
    → IsKept before after
Moved-IsKept before false after moved h = inl moved
Moved-IsKept none true after moved h = absurd (ground arith)
Moved-IsKept (some old) true after moved h = absurd (ground arith)

IsKept-trans : (a b c : Option NodeConfigRow) → IsKept a b → IsKept b c → IsKept a c
IsKept-trans a b c (inl e) (inl f) = inl (f ∙ e)
IsKept-trans a b c (inl e) (inr f) = inr f
IsKept-trans a b c (inr e) (inl f) = inr (f ∙ e)
IsKept-trans a b c (inr e) (inr f) = inr f

row_for-delete_other :
    (rows : List NodeConfigRow) (node_id other : ℕ)
    → node_id == other ≡ false
    → row_for (filter (λ row. not (row.node_id == node_id)) rows) other ≡ row_for rows other
row_for-delete_other [] node_id other h = refl
row_for-delete_other (row ∷ rows) node_id other h =
    ground (arith, row_for-delete_other rows node_id other h, ==_iff row.node_id node_id)

store_config-other :
    (epoch : ℕ) (now config_json : Text) (node_id other : ℕ) (db : Database)
    → node_id == other ≡ false
    → get_node_config_snapshot (store_config epoch now config_json node_id db).1 other
      ≡ get_node_config_snapshot db other
unfolding store_config get_node_config_snapshot upsert_node_config_snapshot
store_config-other epoch now config_json node_id other db h =
    let written =
      row_for-upsert_other db.node_configs
        (record { node_id = node_id; version = epoch; config_json = config_json; updated_at = now })
        other h in
    elim (Option-cases (row_for db.node_configs node_id)) [
      | inl e ↦ rw (store_config, e) written
      | inr (prev, e) ↦ elim (Bool-cases (prev.config_json == config_json)) [
        | inl same ↦ rw (store_config, e, same) refl
        | inr differs ↦ rw (store_config, e, differs) written
      ]
    ]

module _ (issuer : Issuer) (locale_compare : Text → Text → Comparison)
    (stringify : RealmNodeConfig → Text) (epoch : ℕ) (now : Text) where
  recompute-other :
      (db : Database) (node_id other : ℕ)
      → node_id == other ≡ false
      → get_node_config_snapshot
          (recompute_node_config issuer locale_compare stringify db node_id epoch now).1
          other
        ≡ get_node_config_snapshot db other
  unfolding recompute_node_config get_node_config_snapshot delete_node_config_snapshot
  recompute-other db node_id other h =
      let built = build_realm_node_config issuer locale_compare db node_id now in
      subst
        (λ x.
          get_node_config_snapshot
            (recompute_node_config issuer locale_compare stringify db node_id epoch now).1 other
          ≡ x)
        (ap (λ rows. row_for rows other)
          (build-keeps issuer locale_compare stringify db node_id now))
        (stored built.0 built.1)
    where
      stored :
          (config : Option RealmNodeConfig) (built : Database)
          → get_node_config_snapshot
              (elim config as (λ _. RecomputeResult × Database) [
                | none ↦ (
                  record { ok = false; changed = false },
                  delete_node_config_snapshot built node_id,
                )
                | some c ↦ store_config epoch now (stringify c) node_id built
              ]).1
              other
            ≡ get_node_config_snapshot built other
      stored none built = row_for-delete_other built.node_configs node_id other h
      stored (some c) built = store_config-other epoch now (stringify c) node_id other built h

  -- A recomputation that reports no change keeps the snapshot or drops it.
  recompute-IsKept :
      (db : Database) (node_id : ℕ)
      → (recompute_node_config issuer locale_compare stringify db node_id epoch now).0.changed
        ≡ false
      → IsKept (get_node_config_snapshot db node_id) (
          get_node_config_snapshot
            (recompute_node_config issuer locale_compare stringify db node_id epoch now).1
            node_id)
  recompute-IsKept db node_id h =
      kept (build_realm_node_config issuer locale_compare db node_id now).0
        (get_node_config_snapshot db node_id)
        (recompute_node_config issuer locale_compare stringify db node_id epoch now)
        (recompute_node_config-Recomputed issuer locale_compare stringify db node_id epoch now) h
    where
      kept :
          (config : Option RealmNodeConfig) (before : Option NodeConfigRow)
          (r : RecomputeResult × Database)
          → Recomputed issuer locale_compare stringify config before node_id r
          → r.0.changed ≡ false
          → IsKept before (get_node_config_snapshot r.1 node_id)
      kept none before r recomputed h = inr recomputed.2
      kept (some config) before r recomputed h =
          Moved-IsKept before r.0.changed (get_node_config_snapshot r.1 node_id) recomputed.2 h

  module _ (n : ℕ) (before : Option NodeConfigRow) where
    recompute_next-IsKept :
        (nodes : List ℕ) (db : Database) (changed : List ℕ)
        → let r =
            foldl (recompute_next issuer locale_compare stringify epoch now) (db, changed) nodes in
          (has changed n ≡ false → IsKept before (get_node_config_snapshot db n))
          → has r.1 n ≡ false
          → IsKept before (get_node_config_snapshot r.0 n)
    unfolding recompute_next
    recompute_next-IsKept [] db changed h silent = h silent
    recompute_next-IsKept (node_id ∷ nodes) db changed h silent =
        let r = recompute_node_config issuer locale_compare stringify db node_id epoch now in
        recompute_next-IsKept nodes r.1 (if r.0.changed then changed ++ node_id ∷ [] else changed)
          (λ quiet. elim (Bool-cases r.0.changed) [
            | inl reported ↦
                rw
                  (recompute-other db node_id n
                    (ground (arith, has-append changed (node_id ∷ []) n)))
                  (h (ground (arith, has-append changed (node_id ∷ []) n)))
            | inr silent_step ↦ elim (Bool-cases (node_id == n)) [
              | inl same ↦
                  IsKept-trans before (get_node_config_snapshot db n)
                    (get_node_config_snapshot r.1 n) (h (ground arith))
                    (subst
                      (λ k. IsKept (get_node_config_snapshot db k) (get_node_config_snapshot r.1 k))
                      ((==_iff node_id n).0 same) (recompute-IsKept db node_id silent_step))
              | inr other ↦ rw (recompute-other db node_id n other) (h (ground arith))
            ]
          ])
          silent

  -- After the nodes of a tunnel are recomputed, the snapshot of every node that is not notified is
  -- the one before, version included, or is gone.
  pub recompute_tunnel_nodes-IsKept :
      (db : Database) (tunnel_id n : ℕ)
      → has (recompute_tunnel_nodes issuer locale_compare stringify epoch now db tunnel_id).1 n
        ≡ false
      → IsKept (get_node_config_snapshot db n) (
          get_node_config_snapshot
            (recompute_tunnel_nodes issuer locale_compare stringify epoch now db tunnel_id).0
            n)
  unfolding recompute_tunnel_nodes
  recompute_tunnel_nodes-IsKept db tunnel_id n silent =
      recompute_next-IsKept n (get_node_config_snapshot db n)
        (tunnel_nodes issuer locale_compare stringify epoch now db tunnel_id) db [] (λ _. inl refl)
        silent

  recompute_next-other :
      (nodes : List ℕ) (n : ℕ) (db : Database) (changed : List ℕ)
      → has nodes n ≡ false
      → get_node_config_snapshot
          (foldl (recompute_next issuer locale_compare stringify epoch now) (db, changed) nodes).0
          n
        ≡ get_node_config_snapshot db n
  unfolding recompute_next
  recompute_next-other [] n db changed h = refl
  recompute_next-other (node_id ∷ nodes) n db changed h =
      let r = recompute_node_config issuer locale_compare stringify db node_id epoch now in
      recompute_next-other nodes n r.1 (if r.0.changed then changed ++ node_id ∷ [] else changed)
        (ground (arith, h))
      ∙ recompute-other db node_id n (ground (arith, h))

  -- A node without a link on the tunnel is not recomputed with it.
  pub recompute_tunnel_nodes-other :
      (db : Database) (tunnel_id n : ℕ)
      → has (tunnel_nodes issuer locale_compare stringify epoch now db tunnel_id) n ≡ false
      → get_node_config_snapshot
          (recompute_tunnel_nodes issuer locale_compare stringify epoch now db tunnel_id).0
          n
        ≡ get_node_config_snapshot db n
  unfolding recompute_tunnel_nodes
  recompute_tunnel_nodes-other db tunnel_id n h =
      recompute_next-other (tunnel_nodes issuer locale_compare stringify epoch now db tunnel_id) n
        db [] h
