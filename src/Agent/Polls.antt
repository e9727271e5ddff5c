-- ===== src/Agent/Polls.antt =====
-- apps/server/src/routes/agent.ts: an agent that polls with the version it has gets what is new.
use tyz.Prelude.{ℕ, ◌<◌, ◌≡◌, refl, ◌∙◌, true, some, Text, arith, subst}
use tyz.Js.Text.Decimal.{show}
use tyz.Js.Number.ParseInt.{parse_int-show}
use tyz.Entities.{RealmNodeConfig}
use tyz.Db.{Database, NodeConfigRow}
use tyz.Tls.{Issuer}
use tyz.Realm.Build.{Comparison, build_realm_node_config}
use tyz.Realm.Snapshot.{get_node_config_snapshot, recompute_node_config}
use tyz.Realm.Recompute.{Recomputed, recompute_node_config-Recomputed, version_of, Moved}
use tyz.Agent.{newer, compare_version, ensure_snapshot, get_config}

module _ (issuer : Issuer) (locale_compare : Text → Text → Comparison)
    (stringify : RealmNodeConfig → Text) (epoch : ℕ) (now : Text) where
  -- A poll that names the version in decimal, for a node that has a snapshot.
  poll_stored :
      (db : Database) (node_id held : ℕ) (row : NodeConfigRow)
      → get_node_config_snapshot db node_id ≡ some row
      → get_config issuer locale_compare stringify epoch now (some (show held)) db node_id
        ≡ (compare_version (some row) held, db)
  unfolding get_config ensure_snapshot
  poll_stored db node_id held row there =
      rw (get_config, parse_int-show held, ensure_snapshot, there) refl

  compare-newer :
      (row : NodeConfigRow) (held : ℕ)
      → held < row.version
      → compare_version (some row) held ≡ newer row.version row.config_json
  compare-newer row held h = ground (arith, h)

  -- After a recomputation that reports a change, an agent that polls with the version of the snapshot
  -- before is given a larger version and the text of the config that was built; the poll changes
  -- nothing.
  pub get_config-newer :
      (db : Database) (node_id : ℕ) (old : NodeConfigRow) (config : RealmNodeConfig)
      → get_node_config_snapshot db node_id ≡ some old
      → (build_realm_node_config issuer locale_compare db node_id now).0 ≡ some config
      → (recompute_node_config issuer locale_compare stringify db node_id epoch now).0.changed
        ≡ true
      → let saved =
          (recompute_node_config issuer locale_compare stringify db node_id epoch now).1 in
        (version : ℕ) × (old.version < version)
        × (get_config issuer locale_compare stringify epoch now
              (some (show old.version))
              saved
              node_id
            ≡ (newer version (stringify config), saved))
  get_config-newer db node_id old config before built changed =
      let r = recompute_node_config issuer locale_compare stringify db node_id epoch now in
      let stored : Recomputed issuer locale_compare stringify (some config) (some old) node_id r =
        subst (λ c. Recomputed issuer locale_compare stringify c (some old) node_id r) built
          (subst
            (λ b.
              Recomputed issuer locale_compare stringify
                (build_realm_node_config issuer locale_compare db node_id now).0 b node_id r)
            before
            (recompute_node_config-Recomputed issuer locale_compare stringify db node_id epoch
              now)) in
      let (row, there, text) = stored.1 in
      let moved : old.version < version_of (get_node_config_snapshot r.1 node_id) =
        subst (λ b. Moved (some old) b (get_node_config_snapshot r.1 node_id)) changed stored.2 in
      let larger : old.version < row.version =
        subst (λ s. old.version < version_of s) there moved in
      (
        row.version,
        larger,
        poll_stored r.1 node_id old.version row there
            ∙ rw (compare-newer row old.version larger, text) refl,
      )
