-- ===== src/Admin/Users.antt =====
-- apps/server/src/routes/admin.ts: the handlers of the tenants and their subscriptions.
use tyz.Prelude.{
  ℕ, Bool, true, false, not, ◌||◌, Option, none, some, List, [], ◌∷◌, ◌++◌, Text, map, filter,
  find?, ltb, if◌then◌else◌, ◌==◌, nat_eq, or_else,
}
use tyz.Js.Map
use tyz.Js.Map.{JsMap, distinct}
use tyz.Js.Text.{codes}
use tyz.Js.Text.Decimal.{show}
use tyz.Entities.{RelayRule, Package, User, UserStatus, active, disabled, UserSubscription}
use tyz.Db.{Database, UserRow, admin, user}
use tyz.Db.Statements.{order_by, upsert}
use tyz.Quota.{get_active_subscriptions, UserQuotaSummary, user_quota_summary, is_owned_by}
use tyz.Realm.Render.{to_relay_rule}
use tyz.Admin.{
  is_given, Answer, refused, answered, Response, recompute_tunnel, recompute_user, refuse, respond,
  patched, patched_some, audit_of, record_audit,
}
use tyz.Admin.Ownership.{get_user}
use tyz.Admin.Endpoints.{rule_tunnels}

pub record CreateUserInput : Type 0 where
  pub name : Text
  pub note : Option Text
  pub status : UserStatus

pub record UpdateUserInput : Type 0 where
  pub name : Option Text
  pub note : Option Text
  pub status : Option UserStatus

pub record UserListItem : Type 0 where
  pub user : User
  pub subscription : Option (ℕ × Text × Bool)

abbrev pub is_admin : UserRow → Bool
is_admin row = elim row.role [ admin ↦ true | user ↦ false ]

-- `toUser` picks the fields of the entity.
unfoldable pub list_users : Database → Text → List UserListItem
unfolding get_active_subscriptions
list_users db now =
    let rows =
      order_by (λ (row : UserRow). row.id)
        (filter (λ (row : UserRow). not (is_admin row)) db.users) in
    let subs = get_active_subscriptions db (map (λ (row : UserRow). row.id) rows) now in
    map
      (λ (row : UserRow). record {
        user = row.entity;
        subscription = elim (Map.get subs row.id) [
          | none ↦ none
          | some sub ↦ some (sub.pkg.id, sub.pkg.name, sub.expired)
        ];
      })
      rows

abbrev created_user : CreateUserInput → ℕ → Text → UserRow
created_user input id now = record {
  entity = record {
    id = id;
    name = input.name;
    note = input.note;
    status = input.status;
    created_at = now;
    updated_at = now;
  };
  role = user;
  password_hash = none;
}

unfoldable pub create_user : Option CreateUserInput → ℕ → Text → Text → Database → Response User
unfolding record_audit
create_user none id actor now db = refuse 400 (codes "invalid user payload") db
create_user (some input) id actor now db =
    let row = created_user input id now in
    respond row.entity
      (record_audit now (audit_of actor (codes "user.create") (codes "user") (show id) row.name)
        (record db { users = db.users ++ row ∷ [] }))
      []

unfoldable pub is_user_row_admin : Database → ℕ → Bool
is_user_row_admin db id = elim (get_user db id) [ none ↦ false | some row ↦ is_admin row ]

unfoldable pub get_user_detail : Database → ℕ → Text → Answer (User × UserQuotaSummary)
unfolding user_quota_summary
get_user_detail db id now =
    let owned = filter (is_owned_by id) db.relay_rules in
    elim (get_user db id) [
      | none ↦ refused 404 (codes "user not found")
      | some row ↦
          if is_admin row
          then refused 404 (codes "user not found")
          else answered (row.entity, user_quota_summary db row.entity (map to_relay_rule owned) now)
    ]

abbrev pub patched_user : UpdateUserInput → Text → UserRow → UserRow
patched_user input now old = record old {
  entity = record old.entity {
    name = patched input.name old.name;
    note = patched_some input.note old.note;
    status = patched input.status old.status;
    updated_at = now;
  };
}

abbrev status_text : UserStatus → Text
status_text active = codes "active"
status_text disabled = codes "disabled"

abbrev update_detail : UpdateUserInput → Text
update_detail input = elim input.status [
  | none ↦ or_else input.name []
  | some status ↦ codes "status=" ++ status_text status
]

unfoldable pub changes_user : UpdateUserInput → Bool
changes_user input = is_given input.name || (is_given input.note || is_given input.status)

unfoldable pub save_user : ℕ → UpdateUserInput → Text → Text → Database → Response User
unfolding record_audit
save_user id input actor now db = elim (get_user db id) [
  | none ↦ refuse 404 (codes "user not found") db
  | some old ↦
      respond (patched_user input now old).entity
        (record_audit now
          (audit_of actor (codes "user.update") (codes "user") (show id) (update_detail input))
          (record db {
            users =
                map (λ (row : UserRow). if row.id == id then patched_user input now row else row)
                  db.users;
          }))
        (elim input.status [ none ↦ [] | some _ ↦ recompute_user id ∷ [] ])
]

unfoldable pub update_user : ℕ → Option UpdateUserInput → Text → Text → Database → Response User
unfolding is_user_row_admin save_user changes_user
update_user id none actor now db =
    if is_user_row_admin db id
    then refuse 409 (codes "管理员账号不通过用户管理接口修改") db
    else refuse 400 (codes "invalid user payload") db
update_user id (some input) actor now db =
    if is_user_row_admin db id
    then refuse 409 (codes "管理员账号不通过用户管理接口修改") db
    else if not (changes_user input)
    then refuse 400 (codes "no fields to update") db
    else save_user id input actor now db

-- `ON DELETE SET NULL`
abbrev pub disown : ℕ → RelayRule → RelayRule
disown id r = if is_owned_by id r then record r { user_id = none } else r

-- The subscription goes with the user, the rules lose their owner.
unfoldable pub without_user : ℕ → Database → Database
without_user id db = record db {
  users = filter (λ (row : UserRow). not (row.id == id)) db.users;
  user_packages = filter (λ (s : UserSubscription). not (s.user_id == id)) db.user_packages;
  relay_rules = map (disown id) db.relay_rules;
}

unfoldable pub delete_user : ℕ → Text → Text → Database → Response (Unit {0})
unfolding is_user_row_admin without_user record_audit rule_tunnels
delete_user id actor now db =
    if is_user_row_admin db id then refuse 409 (codes "管理员账号不能删除") db else elim (get_user db id) [
      | none ↦ refuse 404 (codes "user not found") db
      | some _ ↦
          respond tt
            (record_audit now (audit_of actor (codes "user.delete") (codes "user") (show id) [])
              (without_user id db))
            (map recompute_tunnel
              (distinct (rule_tunnels (filter (is_owned_by id) db.relay_rules))))
    ]

abbrev pub same_user : UserSubscription → UserSubscription → Bool
same_user old row = old.user_id == row.user_id

-- The id and the time of creation of the old row stay.
abbrev pub merge_subscription : UserSubscription → UserSubscription → UserSubscription
merge_subscription old row = record row { id = old.id; created_at = old.created_at }

abbrev pub get_package : Database → ℕ → Option Package
get_package db id = find? (λ (p : Package). p.id == id) db.packages

abbrev never : Text
never = codes "never"

-- `after_days n` is the time that many days from now, as `toISOString` writes it.
module _ (after_days : ℕ → Text) where
  unfoldable pub expiry_of : Package → Option Text
  expiry_of pkg = if ltb 0 pkg.period_days then some (after_days pkg.period_days) else none

  unfoldable pub subscription_row : ℕ → ℕ → Package → Text → UserSubscription
  unfolding expiry_of
  subscription_row id user_id pkg now = record {
    id = id;
    user_id = user_id;
    package_id = pkg.id;
    package_name = pkg.name;
    traffic_bytes = pkg.traffic_bytes;
    activated_at = now;
    expires_at = expiry_of pkg;
    created_at = now;
    updated_at = now;
  }

  unfoldable pub put_subscription : UserSubscription → Database → Database
  put_subscription row db = record db {
    user_packages = upsert same_user merge_subscription db.user_packages row;
  }

  unfoldable pub subscribe :
      ℕ → Option ℕ → ℕ → Text → Text → Database → Response (Option UserSubscription)
  unfolding is_user_row_admin subscription_row put_subscription expiry_of record_audit
  subscribe user_id none id actor now db = refuse 400 (codes "invalid subscribe payload") db
  subscribe user_id (some package_id) id actor now db =
      if is_user_row_admin db user_id
      then refuse 409 (codes "管理员账号不参与套餐订阅") db
      else elim (get_user db user_id) [
        | none ↦ refuse 404 (codes "user not found") db
        | some _ ↦ elim (get_package db package_id) [
          | none ↦ refuse 404 (codes "package not found") db
          | some pkg ↦
              let saved = put_subscription (subscription_row id user_id pkg now) db in
              respond (find? (λ (s : UserSubscription). s.user_id == user_id) saved.user_packages)
                (record_audit now
                  (audit_of actor (codes "subscribe") (codes "user") (show user_id) (
                    codes "package "
                    ++ pkg.name
                    ++ codes " (#"
                    ++ show pkg.id
                    ++ codes "), expires "
                    ++ or_else (expiry_of pkg) never))
                  saved)
                (recompute_user user_id ∷ [])
        ]
      ]
