-- ===== src/Tls/Admin.antt =====
-- apps/server/src/services/tls.ts: what the panel and the daily cron do to the TLS material. Dates
-- are read by a parameter (`Date.parse`), in milliseconds.
use tyz.Prelude.{
  ℕ, ◌+◌, ◌*◌, Bool, true, false, not, ◌&&◌, Option, none, some, [], ◌∷◌, Text, ltb, map, filter,
  if◌then◌else◌, ◌==◌, nat_eq, text_eq, or_else,
}
use tyz.Js.Text.{codes}
use tyz.Db.{Database, MaterialRow, MaterialKind, ca, server, client}
use tyz.Tls.{
  Issuer, TlsProfile, get_tls_domain, put_setting, kind_beq, material, has_material,
  resolve_tls_profile, persist_profile_keys, insert_fresh, ensure_tls_material,
}

-- `DELETE FROM tls_material` of the rows that the test does not keep.
abbrev pub keep_material : (MaterialKind → Bool) → Database → Database
keep_material keep db = record db {
  tls_material = filter (λ (row : MaterialRow). keep row.kind) db.tls_material;
}

pub record DomainResult : Type 0 where
  pub changed : Bool
  pub issued : Bool

-- The rest of the profile form's fields, each left out or given.
pub record ProfileInput : Type 0 where
  pub ca_common_name : Option Text
  pub ca_organization : Option Text
  pub ca_validity_days : Option ℕ
  pub leaf_validity_days : Option ℕ

pub data Regenerated : Type 0 where
  all_material leaves issued_material nothing : Regenerated

pub record TlsStatus : Type 0 where
  pub domain : Option Text
  pub ca_not_after : Option Text
  pub server_not_after : Option Text
  pub client_not_after : Option Text
  pub profile : TlsProfile

unfoldable pub next_profile : ProfileInput → TlsProfile → TlsProfile
next_profile input current = record {
  ca_common_name = or_else input.ca_common_name current.ca_common_name;
  ca_organization = or_else input.ca_organization current.ca_organization;
  ca_validity_days = or_else input.ca_validity_days current.ca_validity_days;
  leaf_validity_days = or_else input.leaf_validity_days current.leaf_validity_days;
}

unfoldable pub same_ca : TlsProfile → TlsProfile → Bool
same_ca next current =
    next.ca_common_name == current.ca_common_name
    && (next.ca_organization == current.ca_organization
        && next.ca_validity_days == current.ca_validity_days)

abbrev not_after_of : Database → MaterialKind → Option Text
not_after_of db kind = elim (material db kind) [ none ↦ none | some row ↦ some row.not_after ]

unfoldable pub get_tls_status : Database → TlsStatus
get_tls_status db = record {
  domain = get_tls_domain db;
  ca_not_after = not_after_of db ca;
  server_not_after = not_after_of db server;
  client_not_after = not_after_of db client;
  profile =
      resolve_tls_profile db (get_tls_domain db)
        (elim db.tls_material [ [] ↦ false | _ ∷ _ ↦ true ]);
}

module _ (issuer : Issuer) where
  -- The saved domain, and material that is issued at once; a throw of the issue is `none`.
  unfoldable pub save_domain : Text → Text → Database → Option DomainResult × Database
  unfolding put_setting ensure_tls_material
  save_domain domain now db =
      let saved =
        keep_material (λ kind. not (kind_beq kind server))
          (put_setting now (codes "tls_domain") domain db) in
      let ensured = ensure_tls_material issuer saved now in
      (
        elim ensured.0 [
          | none ↦ none
          | some _ ↦ some (record { changed = true; issued = not (has_material saved ca) })
        ],
        ensured.1,
      )

  unfoldable pub set_tls_domain : Database → Text → Text → Option DomainResult × Database
  unfolding save_domain
  set_tls_domain db domain now =
      let saved = save_domain domain now db in
      elim (get_tls_domain db) [
        | none ↦ saved
        | some old ↦
            if old == domain then (some (record { changed = false; issued = false }), db) else saved
      ]

  -- The material after the profile was stored; a throw of the issue is `none`.
  unfoldable pub apply_profile :
      TlsProfile → TlsProfile → Bool → Text → Database → Option Regenerated × Database
  unfolding same_ca ensure_tls_material
  apply_profile current next material_exists now db =
      let issue : Regenerated → Database → Option Regenerated × Database = λ what kept.
        let ensured = ensure_tls_material issuer kept now in
        (elim ensured.0 [ none ↦ none | some _ ↦ some what ], ensured.1) in
      if not material_exists
      then issue issued_material db
      else if not (same_ca next current)
      then issue all_material (keep_material (λ kind. false) db)
      else if not (next.leaf_validity_days == current.leaf_validity_days)
      then issue leaves (keep_material (λ kind. kind_beq kind ca) db)
      else (some nothing, db)

  unfoldable pub set_tls_profile :
      Database → ProfileInput → Text → TlsProfile × Option Regenerated × Database
  unfolding next_profile apply_profile persist_profile_keys resolve_tls_profile
  set_tls_profile db input now =
      let domain = get_tls_domain db in
      let material_exists = has_material db ca in
      let current = resolve_tls_profile db domain material_exists in
      let next = next_profile input current in
      let stored = persist_profile_keys db next now in
      elim domain [
        | none ↦ (next, some nothing, stored)
        | some [] ↦ (next, some nothing, stored)
        | some (_ ∷ _) ↦
            let applied = apply_profile current next material_exists now stored in
            (next, applied.0, applied.1)
      ]

  module _ (parse_date : Text → ℕ) (now_ms : ℕ) where
    -- Less than so many days are left.
    unfoldable pub expires_within : ℕ → Text → Bool
    expires_within days not_after = ltb (parse_date not_after) (now_ms + days * 86400000)

    -- A leaf near its end is issued again under the CA.
    unfoldable pub renew_leaf :
        Text → TlsProfile → MaterialRow → MaterialRow → Bool × Database → Bool × Database
    unfolding expires_within
    renew_leaf domain profile ca_row row (changed, db) =
        let leaf = issuer.issue_leaf row.kind domain profile ca_row in
        if expires_within 30 row.not_after
        then (
          true,
          record db {
            tls_material =
                map
                  (λ (old : MaterialRow).
                    if kind_beq old.kind row.kind
                    then record old {
                      cert_pem = leaf.cert_pem;
                      key_pem = leaf.key_pem;
                      not_after = leaf.not_after;
                      updated_at = leaf.updated_at;
                    }
                    else old)
                  db.tls_material;
          },
        )
        else (changed, db)

    unfoldable pub renew_rows :
        Text
        → Text
        → Database
        → Option MaterialRow
        → Option MaterialRow
        → Option MaterialRow
        → Bool × Database
    unfolding renew_leaf expires_within insert_fresh persist_profile_keys resolve_tls_profile
    renew_rows domain now db (some ca_row) (some server_row) (some client_row) =
        let profile = resolve_tls_profile db (some domain) true in
        if expires_within 90 ca_row.not_after
        then (
          true,
          persist_profile_keys
              (insert_fresh issuer domain profile (keep_material (λ kind. false) db)) profile now,
        )
        else renew_leaf domain profile ca_row client_row
            (renew_leaf domain profile ca_row server_row (false, db))
    renew_rows domain now db _ _ _ = (false, db)

    unfoldable pub renew_tls_material : Database → Text → Bool × Database
    unfolding renew_rows
    renew_tls_material db now = elim (get_tls_domain db) [
      | none ↦ (false, db)
      | some [] ↦ (false, db)
      | some (c ∷ domain) ↦
          renew_rows (c ∷ domain) now db (material db ca) (material db server) (material db client)
    ]
