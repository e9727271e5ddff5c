-- ===== src/Session/Setup.antt =====
-- apps/server/src/routes/setup.ts, and the sign-in handlers of routes/admin.ts. A success of setup
-- and sign-in carries the session cookie; `parsed` is what zod made of the payload.
use tyz.Prelude.{
  ℕ, ◌&&◌, Option, none, some, [], ◌∷◌, ◌++◌, Text, map, if◌then◌else◌, ◌==◌, text_eq, not,
}
use tyz.Js.Text.{codes}
use tyz.Js.Text.Decimal.{show}
use tyz.Entities.{active}
use tyz.Db.{Database, UserRow, admin}
use tyz.Admin.{Response, refuse, internal_error, respond, audit_of, record_audit}
use tyz.Admin.Users.{is_admin}
use tyz.Session.{
  SecretCache, session_secret, session_secret_key, insert_setting, has_admin_account, hash_password,
  verify_admin_credentials, issue_session_cookie,
}

pub record Credentials : Type 0 where
  pub username : Text
  pub password : Text

pub record PasswordChange : Type 0 where
  pub old_password : Text
  pub new_password : Text

module _ (sha256_hex : Text → Text) (hmac_hex : Text → Text → Text) (env_secret : Option Text)
    (now_ms now_s : ℕ) (now : Text) where
  -- The cookie of a session, or the throw of an issue without a secret.
  unfoldable pub with_session : Text → Text → Database → SecretCache → Response Text
  unfolding session_secret issue_session_cookie
  with_session username random db cache =
      let r = session_secret env_secret now_ms now random db cache in
      elim r.0 [
        | none ↦ internal_error r.2
        | some secret ↦ respond (issue_session_cookie hmac_hex secret now_s username) r.2 []
      ]

  abbrev admin_row : Credentials → ℕ → Text → UserRow
  admin_row input id salt = record {
    entity = record {
      id = id;
      name = input.username;
      note = none;
      status = active;
      created_at = now;
      updated_at = now;
    };
    role = admin;
    password_hash = some (hash_password sha256_hex salt input.password);
  }

  -- The database with the first administrator and a session secret.
  unfoldable pub with_first_admin : Credentials → ℕ → Text → Text → Database → Database
  unfolding insert_setting hash_password record_audit
  with_first_admin input id salt random db =
      record_audit now
        (audit_of input.username (codes "setup.admin_create") (codes "user") (show id)
          (codes "first-run wizard"))
        (insert_setting now session_secret_key random
          (record db { users = db.users ++ admin_row input id salt ∷ [] }))

  -- `parsed`, the id of the new row, the salt and two random secrets
  unfoldable pub setup :
      Option Credentials → ℕ → Text → Text → Text → Database → SecretCache → Response Text
  unfolding has_admin_account with_first_admin with_session
  setup none id salt random again db cache = refuse 400 (codes "无效的初始化参数") db
  setup (some input) id salt random again db cache =
      if has_admin_account db
      then refuse 409 (codes "管理员账号已存在，请直接登录") db
      else with_session input.username again (with_first_admin input id salt random db) cache

  unfoldable pub login : Option Credentials → Text → Database → SecretCache → Response Text
  unfolding has_admin_account verify_admin_credentials with_session
  login none random db cache = refuse 400 (codes "invalid login payload") db
  login (some input) random db cache =
      if not (has_admin_account db)
      then refuse 503 (codes "尚未创建管理员账号：请打开 /setup 页面完成初始化") db
      else if verify_admin_credentials sha256_hex db input.username input.password
      then with_session input.username random db cache
      else refuse 401 (codes "invalid credentials") db

  abbrev with_password : Text → Text → Text → UserRow → UserRow
  with_password username salt password row =
      if is_admin row && row.name == username
      then record row {
        entity = record row.entity { updated_at = now };
        password_hash = some (hash_password sha256_hex salt password);
      }
      else row

  unfoldable pub change_password :
      Text → Option PasswordChange → Text → Database → Response (Unit {0})
  unfolding verify_admin_credentials hash_password record_audit
  change_password username none salt db = refuse 400 (codes "invalid input") db
  change_password username (some input) salt db =
      if verify_admin_credentials sha256_hex db username input.old_password
      then respond tt
          (record_audit now
            (audit_of username (codes "me.update_password") (codes "user") username [])
            (record db { users = map (with_password username salt input.new_password) db.users }))
          []
      else refuse 403 (codes "当前密码不正确") db
