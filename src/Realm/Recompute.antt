-- ===== src/Realm/Recompute.antt =====
-- What a stored config snapshot promises to an agent that polls it by its version.
use tyz.Prelude.{
  ℕ, ◌≤◌, ◌<◌, ◌≡◌, refl, ap, sym, ◌∙◌, ◌⊎◌, subst, Bool, true, false, not, Option, none, some, inl,
  inr, List, [], ◌∷◌, Text, arith, ◌==◌, nat_eq, text_eq, ==_iff, filter, find?, Option-cases,
  Bool-cases,
}
use tyz.Entities.{RealmNodeConfig, RealmService, TlsMaterial}
use tyz.Db.{Database, NodeConfigRow, NodeRow}
use tyz.Db.Statements.{upsert}
use tyz.Tls.{Issuer, ensure_tls_material}
use tyz.Tls.Keeps.{ensure_tls_material-keeps}
use tyz.Realm.Render.{get_node}
use tyz.Realm.Build.{
  Comparison, sort_services, render_tunnels, config_for, attach_material, build_realm_node_config,
}
use tyz.Realm.Snapshot.{
  get_node_config_snapshot, same_node, merge_snapshot, upsert_node_config_snapshot,
  delete_node_config_snapshot, RecomputeResult, store_config, recompute_node_config,
}

abbrev pub row_for : List NodeConfigRow → ℕ → Option NodeConfigRow
row_for rows node_id = find? (λ r. r.node_id == node_id) rows

-- The row that a write leaves: the new one, merged with the old where there is one.
row_for-upsert :
    (rows : List NodeConfigRow) (row : NodeConfigRow)
    → row_for (upsert same_node merge_snapshot rows row) row.node_id
      ≡ some (elim (row_for rows row.node_id) [ none ↦ row | some old ↦ merge_snapshot old row ])
unfolding upsert merge_snapshot
row_for-upsert [] row = ground (arith, ==_iff row.node_id row.node_id)
row_for-upsert (old ∷ rows) row = ground (arith, row_for-upsert rows row)

pub row_for-upsert_other :
    (rows : List NodeConfigRow) (row : NodeConfigRow) (other : ℕ)
    → row.node_id == other ≡ false
    → row_for (upsert same_node merge_snapshot rows row) other ≡ row_for rows other
unfolding upsert merge_snapshot
row_for-upsert_other [] row other h = ground arith
row_for-upsert_other (old ∷ rows) row other h =
    ground (arith, row_for-upsert_other rows row other h, ==_iff old.node_id row.node_id)

row_for-delete :
    (rows : List NodeConfigRow) (node_id : ℕ)
    → row_for (filter (λ row. not (row.node_id == node_id)) rows) node_id ≡ none
row_for-delete [] node_id = refl
row_for-delete (row ∷ rows) node_id = ground (arith, row_for-delete rows node_id)

-- The version in a stored snapshot; 0 where there is none.
abbrev pub version_of : Option NodeConfigRow → ℕ
version_of none = 0
version_of (some row) = row.version

abbrev pub HasSnapshot : Option NodeConfigRow → Text → Type 0
HasSnapshot row config_json = (r : NodeConfigRow) × (row ≡ some r) × (r.config_json ≡ config_json)

-- A snapshot that was there is kept as it is, or it has given way to one of a larger version.
abbrev pub Moved : Option NodeConfigRow → Bool → Option NodeConfigRow → Type 0
Moved before false after = after ≡ before
Moved none true after = Unit
Moved (some old) true after = old.version < version_of after

-- What is stored for a config: its text is, whether or not it was written.
abbrev pub Stored : Text → Option NodeConfigRow → ℕ → RecomputeResult × Database → Type 0
Stored config_json before node_id r =
    (r.0.ok ≡ true)
    × HasSnapshot (get_node_config_snapshot r.1 node_id) config_json
    × Moved before r.0.changed (get_node_config_snapshot r.1 node_id)

upsert-HasSnapshot :
    (db : Database) (node_id : ℕ) (config_json : Text) (epoch : ℕ) (now : Text)
    → HasSnapshot
        (get_node_config_snapshot
          (upsert_node_config_snapshot db node_id config_json epoch now)
          node_id)
        config_json
unfolding get_node_config_snapshot upsert_node_config_snapshot merge_snapshot
upsert-HasSnapshot db node_id config_json epoch now =
    let row : NodeConfigRow = record {
      node_id = node_id;
      version = epoch;
      config_json = config_json;
      updated_at = now;
    } in
    elim (Option-cases (row_for db.node_configs node_id)) [
      | inl e ↦ (row, ground (arith, row_for-upsert db.node_configs row), refl)
      | inr (old, e) ↦
          (merge_snapshot old row, ground (arith, row_for-upsert db.node_configs row), refl)
    ]

overwrite :
    (db : Database) (node_id : ℕ) (config_json : Text) (epoch : ℕ) (now : Text)
    (old : NodeConfigRow)
    → get_node_config_snapshot db node_id ≡ some old
    → let written = upsert_node_config_snapshot db node_id config_json epoch now in
      (epoch ≤ version_of (get_node_config_snapshot written node_id))
      × (old.version < version_of (get_node_config_snapshot written node_id))
unfolding get_node_config_snapshot upsert_node_config_snapshot merge_snapshot
overwrite db node_id config_json epoch now old e =
    let row : NodeConfigRow = record {
      node_id = node_id;
      version = epoch;
      config_json = config_json;
      updated_at = now;
    } in
    let stored = row_for-upsert db.node_configs row in
    (ground (arith, stored), ground (arith, stored))

-- Overwriting a snapshot gives the node a version that is larger than the one before it and no
-- smaller than the clock in seconds, whatever the clock did, with the new text; another node's
-- snapshot is untouched.
pub upsert_node_config_snapshot-version :
    (db : Database) (node_id other : ℕ) (config_json : Text) (epoch : ℕ) (now : Text)
    (old : NodeConfigRow)
    → get_node_config_snapshot db node_id ≡ some old
    → node_id == other ≡ false
    → let written = upsert_node_config_snapshot db node_id config_json epoch now in
      (epoch ≤ version_of (get_node_config_snapshot written node_id))
      × (old.version < version_of (get_node_config_snapshot written node_id))
      × HasSnapshot (get_node_config_snapshot written node_id) config_json
      × (get_node_config_snapshot written other ≡ get_node_config_snapshot db other)
unfolding get_node_config_snapshot upsert_node_config_snapshot
upsert_node_config_snapshot-version db node_id other config_json epoch now old e h =
    let newer = overwrite db node_id config_json epoch now old e in
    let row : NodeConfigRow = record {
      node_id = node_id;
      version = epoch;
      config_json = config_json;
      updated_at = now;
    } in
    (
      newer.0,
      newer.1,
      upsert-HasSnapshot db node_id config_json epoch now,
      row_for-upsert_other db.node_configs row other h,
    )

upsert-grows :
    (db : Database) (node_id : ℕ) (config_json : Text) (epoch : ℕ) (now : Text)
    → Moved (get_node_config_snapshot db node_id) true (
        get_node_config_snapshot
          (upsert_node_config_snapshot db node_id config_json epoch now)
          node_id)
upsert-grows db node_id config_json epoch now =
    elim (Option-cases (get_node_config_snapshot db node_id)) [
      | inl e ↦ rw (e, Moved) tt
      | inr (old, e) ↦ rw (e, Moved) (overwrite db node_id config_json epoch now old e).1
    ]

abbrev written_as : Bool → Database → RecomputeResult × Database
written_as changed db = (record { ok = true; changed = changed }, db)

-- A config is written, or its text is there already.
store_config-cases :
    (db : Database) (node_id : ℕ) (config_json : Text) (epoch : ℕ) (now : Text)
    → (store_config epoch now config_json node_id db
        ≡ written_as true (upsert_node_config_snapshot db node_id config_json epoch now))
      ⊎ ((store_config epoch now config_json node_id db ≡ written_as false db)
          × HasSnapshot (get_node_config_snapshot db node_id) config_json)
unfolding store_config
store_config-cases db node_id config_json epoch now =
    elim (Option-cases (get_node_config_snapshot db node_id)) [
      | inl e ↦ inl (rw (store_config, e) refl)
      | inr (prev, e) ↦ elim (Bool-cases (prev.config_json == config_json)) [
        | inl same ↦ inr (
          rw (store_config, e, same) refl,
          (prev, e, (==_iff prev.config_json config_json).0 same),
        )
        | inr differs ↦ inl (rw (store_config, e, differs) refl)
      ]
    ]

store_config-Stored :
    (db : Database) (node_id : ℕ) (config_json : Text) (epoch : ℕ) (now : Text)
    → Stored config_json
        (get_node_config_snapshot db node_id)
        node_id
        (store_config epoch now config_json node_id db)
store_config-Stored db node_id config_json epoch now =
    elim (store_config-cases db node_id config_json epoch now) [
      | inl e ↦ subst (Stored config_json (get_node_config_snapshot db node_id) node_id) (sym e) (
        refl,
        upsert-HasSnapshot db node_id config_json epoch now,
        upsert-grows db node_id config_json epoch now,
      )
      | inr (e, there) ↦
          subst (Stored config_json (get_node_config_snapshot db node_id) node_id) (sym e)
            (refl, there, refl)
    ]

module _ (issuer : Issuer) (locale_compare : Text → Text → Comparison)
    (stringify : RealmNodeConfig → Text) where
  attach-keeps :
      (node : NodeRow) (services : List RealmService) (issued : Option TlsMaterial × Database)
      → (attach_material node services issued).1 ≡ issued.1
  attach-keeps node services (none, db) = refl
  attach-keeps node services (some material, db) = refl

  config_for-keeps :
      (db : Database) (node : NodeRow) (now : Text)
      → (config_for issuer locale_compare db node now).1.node_configs ≡ db.node_configs
  unfolding config_for
  config_for-keeps db node now = elim (Bool-cases (render_tunnels db node now).tls_wanted) [
    | inl e ↦ rw (e) (
        ap (λ (x : Database). x.node_configs)
          (attach-keeps node (sort_services locale_compare (render_tunnels db node now).services)
            (ensure_tls_material issuer db now))
        ∙ ensure_tls_material-keeps issuer db now)
    | inr e ↦ rw (e) refl
  ]

  -- Rendering a config leaves all stored snapshots alone.
  pub build-keeps :
      (db : Database) (node_id : ℕ) (now : Text)
      → (build_realm_node_config issuer locale_compare db node_id now).1.node_configs
        ≡ db.node_configs
  unfolding build_realm_node_config
  build-keeps db node_id now = elim (Option-cases (get_node db node_id)) [
    | inl e ↦ rw (build_realm_node_config, e) refl
    | inr (node, e) ↦ rw (build_realm_node_config, e) (config_for-keeps db node now)
  ]

  -- What a recomputation leaves for a config, or for a node that is not there.
  abbrev pub Recomputed :
      Option RealmNodeConfig → Option NodeConfigRow → ℕ → RecomputeResult × Database → Type 0
  Recomputed none before node_id r =
      (r.0.ok ≡ false) × (r.0.changed ≡ false) × (get_node_config_snapshot r.1 node_id ≡ none)
  Recomputed (some config) before node_id r = Stored (stringify config) before node_id r

  recomputed :
      (config : Option RealmNodeConfig) (db : Database) (node_id epoch : ℕ) (now : Text)
      → Recomputed config (get_node_config_snapshot db node_id) node_id (elim config [
        | none ↦ (record { ok = false; changed = false }, delete_node_config_snapshot db node_id)
        | some c ↦ store_config epoch now (stringify c) node_id db
      ])
  unfolding delete_node_config_snapshot get_node_config_snapshot
  recomputed none db node_id epoch now = (refl, refl, row_for-delete db.node_configs node_id)
  recomputed (some c) db node_id epoch now = store_config-Stored db node_id (stringify c) epoch now

  -- A recomputation of a node leaves a snapshot that is up to date. If the node is not there, it says
  -- so and the snapshot is gone. Otherwise the stored text is that of the config which is built now,
  -- and if it reports no change the snapshot, its version included, is the one before, and if it
  -- reports a change the version is larger than that of any snapshot before.
  pub recompute_node_config-Recomputed :
      (db : Database) (node_id epoch : ℕ) (now : Text)
      → Recomputed
          (build_realm_node_config issuer locale_compare db node_id now).0
          (get_node_config_snapshot db node_id)
          node_id
          (recompute_node_config issuer locale_compare stringify db node_id epoch now)
  unfolding recompute_node_config get_node_config_snapshot
  recompute_node_config-Recomputed db node_id epoch now =
      let built = build_realm_node_config issuer locale_compare db node_id now in
      subst
        (λ before.
          Recomputed built.0 before node_id
            (recompute_node_config issuer locale_compare stringify db node_id epoch now))
        (ap (λ rows. row_for rows node_id) (build-keeps db node_id now))
        (recomputed built.0 built.1 node_id epoch now)
