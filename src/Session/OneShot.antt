-- ===== src/Session/OneShot.antt =====
-- apps/server/src/routes/setup.ts and middleware/adminAuth.ts: the session secret is always found,
-- and the setup works once.
use tyz.Prelude.{
  ℕ, ◌≡◌, refl, true, false, Option, none, some, List, [], ◌∷◌, ◌++◌, Text, any, arith, ltb, ◌-◌,
  ◌==◌, ==-refl, text_eq, Bool-cases, Option-cases, inl, inr, ◌∙◌, ap,
}
use tyz.Js.Text.{codes}
use tyz.Db.{Database, UserRow, SettingRow}
use tyz.Tls.{find_setting}
use tyz.Admin.{answered, refuse, record_audit}
use tyz.Admin.Users.{is_admin}
use tyz.Session.{
  SecretCache, session_secret, read_secret, session_secret_key, insert_setting, has_admin_account,
}
use tyz.Session.Setup.{Credentials, with_session, with_first_admin, setup}

any-append :
    (xs : List UserRow) (x : UserRow) → is_admin x ≡ true → any is_admin (xs ++ x ∷ []) ≡ true
any-append [] x h = ground (arith, h)
any-append (y ∷ xs) x h = ground (arith, any-append xs x h)

-- A row behind rows that have not its key.
find_setting-new :
    (rows : List SettingRow) (row : SettingRow)
    → find_setting rows row.key ≡ none
    → find_setting (rows ++ row ∷ []) row.key ≡ some row.value
unfolding find_setting
find_setting-new [] row h = rw (find_setting, ==-refl row.key) refl
find_setting-new (r ∷ rows) row h = elim (Bool-cases (r.key == row.key)) [
  | inl same ↦ absurd (ground (arith, h, same))
  | inr other ↦
      let rest : find_setting rows row.key ≡ none = rw (← h, find_setting, other) refl in
      rw (find_setting, other) (find_setting-new rows row rest)
]

-- A setting that is inserted, or was there, is found.
insert_setting-found :
    (now key value : Text) (db : Database)
    → (v : Text) × (find_setting (insert_setting now key value db).app_settings key ≡ some v)
unfolding insert_setting find_setting
insert_setting-found now key value db = elim (Option-cases (find_setting db.app_settings key)) [
  | inr (v, found) ↦ (v, rw (insert_setting, found) found)
  | inl missing ↦ (
    value,
    rw (insert_setting, missing)
        (find_setting-new db.app_settings (record { key = key; value = value; updated_at = now })
          missing),
  )
]

read_secret-some :
    (now_ms : ℕ) (now random : Text) (db : Database) (cache : SecretCache)
    → (v : Text) × ((read_secret now_ms now random db cache).0 ≡ some v)
unfolding read_secret
read_secret-some now_ms now random db cache =
    elim (Option-cases (find_setting db.app_settings session_secret_key)) [
      | inr (v, found) ↦ (v, rw (read_secret, found) refl)
      | inl missing ↦
          let (v, found) = insert_setting-found now session_secret_key random db in
          (v, rw (read_secret, missing, found) refl)
    ]

cached_secret-some :
    (now_ms : ℕ) (now random : Text) (db : Database) (cache : SecretCache)
    → (v : Text) × ((session_secret none now_ms now random db cache).0 ≡ some v)
unfolding session_secret
cached_secret-some now_ms now random db none = read_secret-some now_ms now random db none
cached_secret-some now_ms now random db (some (value, at)) =
    let (v, e) = read_secret-some now_ms now random db (some (value, at)) in
    elim (Bool-cases (ltb (now_ms - at) 60000)) [
      | inl fresh ↦ (value, rw (session_secret, fresh) refl)
      | inr old ↦ (v, rw (session_secret, old) e)
    ]

-- A session secret is given whenever it is asked for, whatever the environment, the cache and the
-- database hold.
pub session_secret-some :
    (env_secret : Option Text) (now_ms : ℕ) (now random : Text) (db : Database)
    (cache : SecretCache)
    → (v : Text) × ((session_secret env_secret now_ms now random db cache).0 ≡ some v)
unfolding session_secret
session_secret-some (some (c ∷ secret)) now_ms now random db cache = (c ∷ secret, refl)
session_secret-some none now_ms now random db cache = cached_secret-some now_ms now random db cache
session_secret-some (some []) now_ms now random db none =
    cached_secret-some now_ms now random db none
session_secret-some (some []) now_ms now random db (some (value, at)) =
    cached_secret-some now_ms now random db (some (value, at))

-- The secret's bookkeeping touches no account.
read_secret-users :
    (now_ms : ℕ) (now random : Text) (db : Database) (cache : SecretCache)
    → (read_secret now_ms now random db cache).2.users ≡ db.users
unfolding read_secret insert_setting
read_secret-users now_ms now random db cache =
    elim (Option-cases (find_setting db.app_settings session_secret_key)) [
      | inr (v, found) ↦ rw (read_secret, found) refl
      | inl missing ↦
          let (v, found) = insert_setting-found now session_secret_key random db in
          rw (read_secret, missing, found, insert_setting, missing) refl
    ]

cached_secret-users :
    (now_ms : ℕ) (now random : Text) (db : Database) (cache : SecretCache)
    → (session_secret none now_ms now random db cache).2.users ≡ db.users
unfolding session_secret
cached_secret-users now_ms now random db none = read_secret-users now_ms now random db none
cached_secret-users now_ms now random db (some (value, at)) =
    elim (Bool-cases (ltb (now_ms - at) 60000)) [
      | inl fresh ↦ rw (session_secret, fresh) refl
      | inr old ↦
          rw (session_secret, old) (read_secret-users now_ms now random db (some (value, at)))
    ]

session_secret-users :
    (env_secret : Option Text) (now_ms : ℕ) (now random : Text) (db : Database)
    (cache : SecretCache)
    → (session_secret env_secret now_ms now random db cache).2.users ≡ db.users
unfolding session_secret
session_secret-users (some (c ∷ secret)) now_ms now random db cache = refl
session_secret-users none now_ms now random db cache =
    cached_secret-users now_ms now random db cache
session_secret-users (some []) now_ms now random db none =
    cached_secret-users now_ms now random db none
session_secret-users (some []) now_ms now random db (some (value, at)) =
    cached_secret-users now_ms now random db (some (value, at))

insert_setting-users :
    (now key value : Text) (db : Database) → (insert_setting now key value db).users ≡ db.users
unfolding insert_setting
insert_setting-users now key value db = elim (Option-cases (find_setting db.app_settings key)) [
  | inr (v, found) ↦ rw (insert_setting, found) refl
  | inl missing ↦ rw (insert_setting, missing) refl
]

module _ (sha256_hex : Text → Text) (hmac_hex : Text → Text → Text) (env_secret : Option Text)
    (now_ms now_s : ℕ) (now : Text) where
  with_first_admin-has_admin :
      (input : Credentials) (id : ℕ) (salt random : Text) (db : Database)
      → any is_admin
          (with_first_admin sha256_hex hmac_hex env_secret now_ms now_s now input id salt random
            db).users
        ≡ true
  unfolding with_first_admin record_audit
  with_first_admin-has_admin input id salt random db =
      ap (any is_admin) (insert_setting-users now session_secret_key random _)
      ∙ any-append db.users _ refl

  with_session-users :
      (username random : Text) (db : Database) (cache : SecretCache)
      → (with_session sha256_hex hmac_hex env_secret now_ms now_s now username random db
          cache).db.users
        ≡ db.users
  unfolding with_session
  with_session-users username random db cache =
      let (v, found) = session_secret-some env_secret now_ms now random db cache in
      rw (with_session, found) (session_secret-users env_secret now_ms now random db cache)

-- A setup that is accepted found no administrator, and leaves one, so that every later setup is
-- refused with 409 and changes nothing.
pub setup-once :
    (sha256_hex : Text → Text) (hmac_hex : Text → Text → Text) (env_secret : Option Text)
    (now_ms now_s : ℕ) (now : Text) (input : Credentials) (id : ℕ) (salt random again : Text)
    (db : Database) (cache : SecretCache) (cookie : Text) (later_ms later_s : ℕ) (later : Text)
    (other : Credentials) (other_id : ℕ) (other_salt other_random other_again : Text)
    (other_cache : SecretCache)
    → (setup sha256_hex hmac_hex env_secret now_ms now_s now
        (some input)
        id
        salt
        random
        again
        db
        cache).answer
      ≡ answered cookie
    → (has_admin_account db ≡ false)
      × (let saved =
            (setup sha256_hex hmac_hex env_secret now_ms now_s now
              (some input)
              id
              salt
              random
              again
              db
              cache).db in
          setup sha256_hex hmac_hex env_secret later_ms later_s later
            (some other)
            other_id
            other_salt
            other_random
            other_again
            saved
            other_cache
          ≡ refuse 409 (codes "管理员账号已存在，请直接登录") saved)
unfolding setup has_admin_account
setup-once sha256_hex hmac_hex env_secret now_ms now_s now input id salt random again db cache
      cookie later_ms later_s later other other_id other_salt other_random other_again other_cache
      done =
    elim (Bool-cases (any is_admin db.users)) [
      | inl there ↦ absurd (ground (arith, done, there))
      | inr none_yet ↦
          let first =
            with_first_admin sha256_hex hmac_hex env_secret now_ms now_s now input id salt random
              db in
          let has_one : any is_admin
                (with_session sha256_hex hmac_hex env_secret now_ms now_s now input.username again
                  first cache).db.users
              ≡ true =
            ap (any is_admin) (
              with_session-users sha256_hex hmac_hex env_secret now_ms now_s now input.username
                again first cache)
            ∙ with_first_admin-has_admin sha256_hex hmac_hex env_secret now_ms now_s now input id
                salt random db in
          (none_yet, rw (setup, has_admin_account, none_yet, has_one) refl)
    ]
