-- ===== src/Tls.antt =====
-- apps/server/src/services/tls.ts: the disguise domain, the certificate profile and the store of
-- the material. Keys and certificates come from WebCrypto and enter as an `Issuer`.
pub mod Keeps
pub mod Issues
pub mod Admin
pub mod Renewal
use tyz.Prelude.{
  ℕ, Bool, true, false, ◌&&◌, Option, none, some, List, [], ◌∷◌, ◌++◌, Text, ltb, leb,
  if◌then◌else◌, ◌==◌, nat_beq, text_eq, length, drop, find?, or_else, ◌-◌,
}
use tyz.Js.Map
use tyz.Js.Map.{JsMap, index_by}
use tyz.Js.Text.{codes}
use tyz.Js.Text.Decimal.{show}
use tyz.Js.Number.{to_number}
use tyz.Entities.{TlsMaterial}
use tyz.Db.{Database, SettingRow, MaterialKind, ca, server, client, MaterialRow}
use tyz.Db.Statements.{upsert}

pub record TlsProfile : Type 0 where
  pub ca_common_name : Text
  pub ca_organization : Text
  pub ca_validity_days : ℕ
  pub leaf_validity_days : ℕ

-- `generateTlsMaterial` and `issueLeaf`: a whole set, or one leaf under a stored CA.
pub record Issuer : Type 0 where
  pub generate_ca : Text → TlsProfile → MaterialRow
  pub issue_leaf : MaterialKind → Text → TlsProfile → MaterialRow → MaterialRow

unfoldable pub find_setting : List SettingRow → Text → Option Text
find_setting settings key = elim (find? (λ s. s.key == key) settings) [
  | none ↦ none
  | some row ↦ some row.value
]

unfoldable pub get_tls_domain : Database → Option Text
unfolding find_setting
get_tls_domain db = find_setting db.app_settings (codes "tls_domain")

unfoldable pub derived_ca_common_name : Text → Text
derived_ca_common_name domain = domain ++ codes " CA"

-- `domain.split(".")`: the label that is being read, then the rest
unfoldable pub split_dots : Text → Text → List Text
split_dots label [] = label ∷ []
split_dots label (c ∷ s) = elim (nat_beq c b'.') [
  | true ↦ label ∷ split_dots [] s
  | false ↦ split_dots (label ++ c ∷ []) s
]

unfoldable pub join_dots : List Text → Text
join_dots [] = []
join_dots (l ∷ []) = l
join_dots (l ∷ m ∷ ls) = l ++ codes "." ++ join_dots (m ∷ ls)

unfoldable pub derived_ca_organization : Text → Text
unfolding split_dots join_dots
derived_ca_organization domain =
    let labels = split_dots [] domain in
    if leb (length labels) 2 then domain else join_dots (drop (length labels - 2) labels)

unfoldable pub read_settings : Database → JsMap Text Text
read_settings db = index_by (λ (s : SettingRow). s.key) (λ s. s.value) db.app_settings

-- A stored number of days, if it is a positive integer.
unfoldable pub positive_days : Option Text → ℕ → ℕ
positive_days none default_days = default_days
positive_days (some text) default_days = elim (to_number text) [
  | none ↦ default_days
  | some n ↦ if ltb 0 n then n else default_days
]

unfoldable pub resolve_tls_profile : Database → Option Text → Bool → TlsProfile
unfolding derived_ca_common_name derived_ca_organization read_settings positive_days
resolve_tls_profile db domain material_exists =
    let settings = read_settings db in
    let effective_domain = or_else domain [] in
    record {
      ca_common_name = or_else (Map.get settings (codes "tls_ca_common_name")) (
          if material_exists
          then codes "TYZ Relay CA"
          else derived_ca_common_name effective_domain);
      ca_organization =
          or_else (Map.get settings (codes "tls_ca_organization"))
            (if material_exists then codes "TYZ" else derived_ca_organization effective_domain);
      ca_validity_days = positive_days (Map.get settings (codes "tls_ca_validity_days")) 3650;
      leaf_validity_days = positive_days (Map.get settings (codes "tls_leaf_validity_days")) 365;
    }

unfoldable pub same_setting : SettingRow → SettingRow → Bool
same_setting a b = a.key == b.key

unfoldable pub merge_setting : SettingRow → SettingRow → SettingRow
merge_setting old excluded = record old { value = excluded.value; updated_at = excluded.updated_at }

unfoldable pub put_setting : Text → Text → Text → Database → Database
unfolding same_setting merge_setting
put_setting ts key value db = record db {
  app_settings =
      upsert same_setting merge_setting db.app_settings
        (record { key = key; value = value; updated_at = ts });
}

unfoldable pub persist_profile_keys : Database → TlsProfile → Text → Database
unfolding put_setting
persist_profile_keys db profile ts =
    put_setting ts (codes "tls_leaf_validity_days") (show profile.leaf_validity_days) (
      put_setting ts (codes "tls_ca_validity_days") (show profile.ca_validity_days) (
        put_setting ts (codes "tls_ca_organization") profile.ca_organization
          (put_setting ts (codes "tls_ca_common_name") profile.ca_common_name db)))

abbrev pub kind_beq : MaterialKind → MaterialKind → Bool
kind_beq ca ca = true
kind_beq server server = true
kind_beq client client = true
kind_beq _ _ = false

-- `kind` is the primary key, so the row that `loadMaterial`'s map holds is the only one.
abbrev pub material : Database → MaterialKind → Option MaterialRow
material db kind = find? (λ row. kind_beq row.kind kind) db.tls_material

abbrev pub has_material : Database → MaterialKind → Bool
has_material db kind = elim (material db kind) [ none ↦ false | some _ ↦ true ]

-- `onConflictDoNothing`
unfoldable pub insert_material_if_absent : Database → MaterialRow → Database
insert_material_if_absent db row =
    if has_material db row.kind
    then db
    else record db { tls_material = db.tls_material ++ row ∷ [] }

module _ (issuer : Issuer) where
  -- A fresh platform, or wiped material: one shot generates everything.
  unfoldable pub insert_fresh : Text → TlsProfile → Database → Database
  unfolding insert_material_if_absent
  insert_fresh domain profile db =
      let ca_row = issuer.generate_ca domain profile in
      insert_material_if_absent
        (insert_material_if_absent (insert_material_if_absent db ca_row)
          (issuer.issue_leaf server domain profile ca_row))
        (issuer.issue_leaf client domain profile ca_row)

  -- A missing leaf under an existing CA.
  unfoldable pub insert_leaf : Text → TlsProfile → MaterialRow → MaterialKind → Database → Database
  unfolding insert_material_if_absent
  insert_leaf domain profile ca_row kind db =
      if has_material db kind
      then db
      else insert_material_if_absent db (issuer.issue_leaf kind domain profile ca_row)

  unfoldable pub complete_material : Text → TlsProfile → Database → Database
  unfolding insert_fresh insert_leaf
  complete_material domain profile db = elim (material db ca) [
    | none ↦ insert_fresh domain profile db
    | some ca_row ↦
        insert_leaf domain profile ca_row client (insert_leaf domain profile ca_row server db)
  ]

  unfoldable pub read_material :
      Text → Option MaterialRow → Option MaterialRow → Option MaterialRow → Option TlsMaterial
  read_material domain (some ca_row) (some server_row) (some client_row) = some (record {
    sni = domain;
    ca_cert = ca_row.cert_pem;
    server_cert = server_row.cert_pem;
    server_key = server_row.key_pem;
    client_cert = client_row.cert_pem;
    client_key = client_row.key_pem;
  })
  read_material domain _ _ _ = none

  unfoldable pub ensure_for_domain : Text → Text → Database → Option TlsMaterial × Database
  unfolding complete_material read_material persist_profile_keys resolve_tls_profile
  ensure_for_domain domain now db =
      let profile =
        resolve_tls_profile db (some domain) (elim db.tls_material [ [] ↦ false | _ ∷ _ ↦ true ]) in
      let db' =
        if has_material db ca && (has_material db server && has_material db client)
        then db
        else persist_profile_keys (complete_material domain profile db) profile now in
      (read_material domain (material db' ca) (material db' server) (material db' client), db')

  -- `ensureTlsMaterial`; `none` is a throw. An empty domain counts as unset.
  unfoldable pub ensure_tls_material : Database → Text → Option TlsMaterial × Database
  unfolding get_tls_domain ensure_for_domain
  ensure_tls_material db now = elim (get_tls_domain db) [
    | none ↦ (none, db)
    | some [] ↦ (none, db)
    | some (c ∷ domain) ↦ ensure_for_domain (c ∷ domain) now db
  ]
