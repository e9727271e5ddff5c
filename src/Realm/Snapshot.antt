-- ===== src/Realm/Snapshot.antt =====
-- apps/server/src/db/repo.ts: the stored config snapshot of a node, and `recomputeNodeConfig`. The
-- text of a config (`JSON.stringify`) and the clock, in seconds and as a text, are arguments.
use tyz.Prelude.{
  ℕ, ◌+◌, Bool, true, false, not, Option, none, some, Text, leb, if◌then◌else◌, ◌==◌, nat_eq,
  text_eq, filter, find?,
}
use tyz.Entities.{RealmNodeConfig}
use tyz.Db.{Database, NodeConfigRow}
use tyz.Db.Statements.{upsert}
use tyz.Tls.{Issuer}
use tyz.Realm.Build.{Comparison, build_realm_node_config}

unfoldable pub get_node_config_snapshot : Database → ℕ → Option NodeConfigRow
get_node_config_snapshot db node_id = find? (λ row. row.node_id == node_id) db.node_configs

abbrev pub same_node : NodeConfigRow → NodeConfigRow → Bool
same_node a b = a.node_id == b.node_id

-- The version of the clock, bumped past the existing row's.
unfoldable pub merge_snapshot : NodeConfigRow → NodeConfigRow → NodeConfigRow
merge_snapshot old excluded = record old {
  version = if leb excluded.version old.version then old.version + 1 else excluded.version;
  config_json = excluded.config_json;
  updated_at = excluded.updated_at;
}

unfoldable pub upsert_node_config_snapshot : Database → ℕ → Text → ℕ → Text → Database
unfolding merge_snapshot upsert
upsert_node_config_snapshot db node_id config_json epoch now = record db {
  node_configs =
      upsert same_node merge_snapshot db.node_configs (record {
        node_id = node_id;
        version = epoch;
        config_json = config_json;
        updated_at = now;
      });
}

unfoldable pub delete_node_config_snapshot : Database → ℕ → Database
delete_node_config_snapshot db node_id = record db {
  node_configs = filter (λ row. not (row.node_id == node_id)) db.node_configs;
}

pub record RecomputeResult : Type 0 where
  pub ok : Bool
  pub changed : Bool

-- A config that the stored text already has is not written.
unfoldable pub store_config : ℕ → Text → Text → ℕ → Database → RecomputeResult × Database
unfolding get_node_config_snapshot upsert_node_config_snapshot
store_config epoch now config_json node_id db =
    let written : RecomputeResult × Database = (
      record { ok = true; changed = true },
      upsert_node_config_snapshot db node_id config_json epoch now,
    ) in
    elim (get_node_config_snapshot db node_id) [
      | none ↦ written
      | some prev ↦
          if prev.config_json == config_json
          then (record { ok = true; changed = false }, db)
          else written
    ]

module _ (issuer : Issuer) (locale_compare : Text → Text → Comparison)
    (stringify : RealmNodeConfig → Text) where
  unfoldable pub recompute_node_config : Database → ℕ → ℕ → Text → RecomputeResult × Database
  unfolding build_realm_node_config store_config delete_node_config_snapshot
  recompute_node_config db node_id epoch now =
      let built = build_realm_node_config issuer locale_compare db node_id now in
      elim built.0 [
        | none ↦
            (record { ok = false; changed = false }, delete_node_config_snapshot built.1 node_id)
        | some config ↦ store_config epoch now (stringify config) node_id built.1
      ]
