-- ===== src/Admin/Shielded.antt =====
-- apps/server/src/routes/admin.ts: the rows of administrators are out of reach of the handlers that
-- manage tenants.
use tyz.Prelude.{
  ℕ, ◌≤◌, ◌≡◌, refl, ap, Bool, true, false, not, Option, none, some, List, [], ◌∷◌, ◌++◌, Text, map,
  filter, arith, if◌then◌else◌, ◌==◌, nat_eq, inl, inr, All, All-imp, Bool-cases, Option-cases,
}
use tyz.Db.{Database, UserRow}
use tyz.Db.Counting.{count, All-found}
use tyz.Admin.{record_audit}
use tyz.Admin.Ownership.{get_user}
use tyz.Admin.Users.{
  CreateUserInput, UpdateUserInput, is_admin, is_user_row_admin, create_user, save_user,
  update_user, patched_user, without_user, delete_user, subscribe, put_subscription, changes_user,
}

module _ {ℓ} {A : Type ℓ} (p : A → Bool) where
  filter-update :
      (key : A → Bool) (f : A → A) (xs : List A)
      → All (λ x. key x ≡ true → (p x ≡ false) × (p (f x) ≡ false)) xs
      → filter p (map (λ x. if key x then f x else x) xs) ≡ filter p xs
  filter-update key f [] h = refl
  filter-update key f (x ∷ xs) h = elim (Bool-cases (key x)) [
    | inl k ↦ rw (k, (h.0 k).0, (h.0 k).1, filter-update key f xs h.1) refl
    | inr k ↦ rw (k, filter-update key f xs h.1) refl
  ]

  filter-remove :
      (key : A → Bool) (xs : List A)
      → All (λ x. key x ≡ true → p x ≡ false) xs
      → filter p (filter (λ x. not (key x)) xs) ≡ filter p xs
  filter-remove key [] h = refl
  filter-remove key (x ∷ xs) h = elim (Bool-cases (key x)) [
    | inl k ↦ rw (k, h.0 k, filter-remove key xs h.1) refl
    | inr k ↦ rw (k, filter-remove key xs h.1) refl
  ]

  filter-add : (xs : List A) (x : A) → p x ≡ false → filter p (xs ++ x ∷ []) ≡ filter p xs
  filter-add [] x h = rw h refl
  filter-add (y ∷ xs) x h = rw (filter-add xs x h) refl

abbrev pub admins : Database → List UserRow
admins db = filter is_admin db.users

module _ (id : ℕ) (db : Database)
    (once : count (λ (row : UserRow). row.id == id) db.users ≤ 1) where
  -- The row that a tenant's request names is no administrator's.
  tenant :
      is_user_row_admin db id ≡ false
      → (old : UserRow) → get_user db id ≡ some old
      → All (λ (row : UserRow). (row.id == id) ≡ true → is_admin row ≡ false) db.users
  unfolding is_user_row_admin
  tenant shielded old found =
      let plain : is_admin old ≡ false = rw (← shielded, is_user_row_admin, found) refl in
      All-imp _ _ (λ row same key. rw (same key) plain) db.users
        (All-found (λ (row : UserRow). row.id == id) db.users old found once)

  update_user-admins :
      (input : UpdateUserInput) (actor now : Text)
      → admins (update_user id (some input) actor now db).db ≡ admins db
  unfolding update_user save_user record_audit
  update_user-admins input actor now = elim (Bool-cases (is_user_row_admin db id)) [
    | inl shielded ↦ rw (update_user, shielded) refl
    | inr plain ↦ elim (Bool-cases (changes_user input)) [
      | inr empty ↦ rw (update_user, plain, empty) refl
      | inl some_field ↦ elim (Option-cases (get_user db id)) [
        | inl missing ↦ rw (update_user, plain, some_field, save_user, missing) refl
        | inr (old, found) ↦
            rw (update_user, plain, some_field, save_user, found)
              (filter-update is_admin (λ (row : UserRow). row.id == id) (patched_user input now)
                db.users
                (All-imp _ _ (λ row is_tenant key. (is_tenant key, is_tenant key)) db.users
                  (tenant plain old found)))
      ]
    ]
  ]

  delete_user-admins : (actor now : Text) → admins (delete_user id actor now db).db ≡ admins db
  unfolding delete_user without_user record_audit
  delete_user-admins actor now = elim (Bool-cases (is_user_row_admin db id)) [
    | inl shielded ↦ rw (delete_user, shielded) refl
    | inr plain ↦ elim (Option-cases (get_user db id)) [
      | inl missing ↦ rw (delete_user, plain, missing) refl
      | inr (old, found) ↦
          rw (delete_user, plain, found)
            (filter-remove is_admin (λ (row : UserRow). row.id == id) db.users
              (tenant plain old found))
    ]
  ]

create_user-admins :
    (input : Option CreateUserInput) (id : ℕ) (actor now : Text) (db : Database)
    → admins (create_user input id actor now db).db ≡ admins db
unfolding create_user record_audit
create_user-admins none id actor now db = refl
create_user-admins (some input) id actor now db = filter-add is_admin db.users _ refl

subscribe-users :
    (after_days : ℕ → Text) (user_id package_id id : ℕ) (actor now : Text) (db : Database)
    → (subscribe after_days user_id (some package_id) id actor now db).db.users ≡ db.users
unfolding subscribe put_subscription record_audit
subscribe-users after_days user_id package_id id actor now db = ground arith

-- No request of the tenants' management adds, changes or removes an administrator's row, whatever
-- id it names, if no two users share that id.
pub tenant_requests-admins :
    (after_days : ℕ → Text) (id new_id package_id : ℕ) (created : CreateUserInput)
    (changed : UpdateUserInput) (actor now : Text) (db : Database)
    → count (λ (row : UserRow). row.id == id) db.users ≤ 1
    → (admins (create_user (some created) new_id actor now db).db ≡ admins db)
      × (admins (update_user id (some changed) actor now db).db ≡ admins db)
      × (admins (delete_user id actor now db).db ≡ admins db)
      × (admins (subscribe after_days id (some package_id) new_id actor now db).db ≡ admins db)
tenant_requests-admins after_days id new_id package_id created changed actor now db once = (
  create_user-admins (some created) new_id actor now db,
  update_user-admins id db once changed actor now,
  delete_user-admins id db once actor now,
  ap (filter is_admin) (subscribe-users after_days id package_id new_id actor now db),
)
