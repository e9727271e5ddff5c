-- ===== src/Admin/Packages.antt =====
-- apps/server/src/routes/admin.ts: the handlers of the packages that tenants subscribe to.
use tyz.Prelude.{
  ℕ, Bool, not, ◌||◌, Option, none, some, List, [], ◌∷◌, ◌++◌, Text, map, filter, find?,
  if◌then◌else◌, ◌==◌, nat_eq,
}
use tyz.Js.Map.{distinct}
use tyz.Js.Text.{codes}
use tyz.Js.Text.Decimal.{show}
use tyz.Entities.{Package, UserSubscription}
use tyz.Db.{Database}
use tyz.Db.Statements.{order_by}
use tyz.Admin.{
  is_given, Response, recompute_user, refuse, respond, patched, patched_some, audit_of,
  record_audit,
}

-- A `null` of the payload is written as an absent value.
pub record CreatePackageInput : Type 0 where
  pub name : Text
  pub note : Option Text
  pub traffic_bytes : ℕ
  pub period_days : ℕ
  pub node_ids : Option (List ℕ)
  pub tunnel_ids : Option (List ℕ)
  pub max_rules : ℕ

-- Of a field that may be `null`, `some none` is the `null`.
pub record UpdatePackageInput : Type 0 where
  pub name : Option Text
  pub note : Option Text
  pub traffic_bytes : Option ℕ
  pub period_days : Option ℕ
  pub node_ids : Option (Option (List ℕ))
  pub tunnel_ids : Option (Option (List ℕ))
  pub max_rules : Option ℕ

unfoldable pub list_packages : Database → List Package
list_packages db = order_by (λ (p : Package). p.id) db.packages

abbrev created_package : CreatePackageInput → ℕ → Text → Package
created_package input id now = record {
  id = id;
  name = input.name;
  note = input.note;
  traffic_bytes = input.traffic_bytes;
  period_days = input.period_days;
  node_ids = input.node_ids;
  tunnel_ids = input.tunnel_ids;
  max_rules = input.max_rules;
  created_at = now;
  updated_at = now;
}

unfoldable pub create_package :
    Option CreatePackageInput → ℕ → Text → Text → Database → Response Package
unfolding record_audit
create_package none id actor now db = refuse 400 (codes "invalid package payload") db
create_package (some input) id actor now db =
    let row = created_package input id now in
    respond row
      (record_audit now
        (audit_of actor (codes "package.create") (codes "package") (show id) row.name)
        (record db { packages = db.packages ++ row ∷ [] }))
      []

unfoldable pub changes_package : UpdatePackageInput → Bool
changes_package input =
    is_given input.name
    || (is_given input.note
        || (is_given input.traffic_bytes
            || (is_given input.period_days
                || (is_given input.node_ids
                    || (is_given input.tunnel_ids || is_given input.max_rules)))))

abbrev pub patched_package : UpdatePackageInput → Text → Package → Package
patched_package input now old = record old {
  name = patched input.name old.name;
  note = patched_some input.note old.note;
  traffic_bytes = patched input.traffic_bytes old.traffic_bytes;
  period_days = patched input.period_days old.period_days;
  node_ids = patched input.node_ids old.node_ids;
  tunnel_ids = patched input.tunnel_ids old.tunnel_ids;
  max_rules = patched input.max_rules old.max_rules;
  updated_at = now;
}

abbrev pub is_on_package : ℕ → UserSubscription → Bool
is_on_package id s = s.package_id == id

abbrev find_package : Database → ℕ → Option Package
find_package db id = find? (λ (p : Package). p.id == id) db.packages

unfoldable pub update_package :
    ℕ → Option UpdatePackageInput → Text → Text → Database → Response Package
unfolding changes_package record_audit
update_package id none actor now db = refuse 400 (codes "invalid package payload") db
update_package id (some input) actor now db =
    let subscribers =
      distinct
        (map (λ (s : UserSubscription). s.user_id) (filter (is_on_package id) db.user_packages)) in
    if not (changes_package input)
    then refuse 400 (codes "no fields to update") db
    else elim (find_package db id) [
      | none ↦ refuse 404 (codes "package not found") db
      | some old ↦
          let row = patched_package input now old in
          respond row
            (record_audit now
              (audit_of actor (codes "package.update") (codes "package") (show id) row.name)
              (record db {
                packages =
                    map (λ (p : Package). if p.id == id then patched_package input now p else p)
                      db.packages;
              }))
            (map recompute_user subscribers)
    ]

unfoldable pub delete_package : ℕ → Text → Text → Database → Response (Unit {0})
unfolding record_audit
delete_package id actor now db = elim (filter (is_on_package id) db.user_packages) [
  | s ∷ subs ↦ refuse 409 (codes "package is in use by an active subscription") db
  | [] ↦ elim (find_package db id) [
    | none ↦ refuse 404 (codes "package not found") db
    | some _ ↦
        respond tt
          (record_audit now (audit_of actor (codes "package.delete") (codes "package") (show id) [])
            (record db { packages = filter (λ (p : Package). not (p.id == id)) db.packages }))
          []
  ]
]
