-- ===== src/Admin/Renewal.antt =====
-- apps/server/src/routes/admin.ts: proofs on the subscription that `subscribe` puts.
use tyz.Prelude.{
  ℕ, ◌≤◌, ◌≡◌, refl, ap, ◌∙◌, Bool, true, false, not, Option, none, some, List, [], ◌∷◌, Text,
  arith, filter, if◌then◌else◌, ltb, ◌==◌, nat_eq, ==_iff, Bool-cases, Option-cases, inl, inr,
}
use tyz.Entities.{UserSubscription, Package}
use tyz.Db.{Database}
use tyz.Db.Counting.{count}
use tyz.Db.Statements.{upsert, filter-upsert}
use tyz.Admin.{answered, record_audit}
use tyz.Admin.Ownership.{get_user}
use tyz.Admin.Users.{
  same_user, merge_subscription, subscription_row, put_subscription, subscribe, is_user_row_admin,
  get_package, expiry_of,
}

abbrev pub is_of : ℕ → UserSubscription → Bool
is_of user_id s = s.user_id == user_id

-- A row with what the package grants, whatever its own id and time of creation.
pub record IsRenewed (after_days : ℕ → Text) (user_id : ℕ) (pkg : Package) (now : Text)
    (held : UserSubscription) : Type 0 where
  pub owner : held.user_id ≡ user_id
  pub plan : held.package_id ≡ pkg.id
  pub name : held.package_name ≡ pkg.name
  pub allowance : held.traffic_bytes ≡ pkg.traffic_bytes
  pub start : held.activated_at ≡ now
  pub ends :
      held.expires_at ≡ (if ltb 0 pkg.period_days then some (after_days pkg.period_days) else none)

filter-none :
    (user_id : ℕ) (rows : List UserSubscription)
    → count (is_of user_id) rows ≡ 0
    → filter (is_of user_id) rows ≡ []
filter-none user_id [] h = refl
filter-none user_id (s ∷ rows) h = ground (arith, h, filter-none user_id rows)

module _ (after_days : ℕ → Text) (user_id : ℕ) (pkg : Package) (now : Text) (id : ℕ) where
  abbrev new_row : UserSubscription
  new_row = subscription_row after_days id user_id pkg now

  fresh-IsRenewed : IsRenewed after_days user_id pkg now new_row
  unfolding subscription_row expiry_of
  fresh-IsRenewed = record {
    owner = refl;
    plan = refl;
    name = refl;
    allowance = refl;
    start = refl;
    ends = refl;
  }

  merged-IsRenewed :
      (old : UserSubscription)
      → IsRenewed after_days user_id pkg now (merge_subscription old new_row)
  unfolding subscription_row expiry_of
  merged-IsRenewed old = record {
    owner = refl;
    plan = refl;
    name = refl;
    allowance = refl;
    start = refl;
    ends = refl;
  }

  mine : (new_row.user_id == user_id) ≡ true
  mine = (==_iff new_row.user_id user_id).1 fresh-IsRenewed.owner

  same_key : (s : UserSubscription) → (s.user_id == new_row.user_id) ≡ (s.user_id == user_id)
  same_key s = ap (λ u. s.user_id == u) fresh-IsRenewed.owner

  skipped :
      (s : UserSubscription) (rows : List UserSubscription)
      → (s.user_id == user_id) ≡ false
      → filter (is_of user_id) (upsert same_user merge_subscription (s ∷ rows) new_row)
        ≡ filter (is_of user_id) (upsert same_user merge_subscription rows new_row)
  unfolding upsert
  skipped s rows other = rw (same_key s, other) (rw other refl)

  upserted :
      (rows : List UserSubscription)
      → count (is_of user_id) rows ≤ 1
      → (held : UserSubscription) × (filter
            (is_of user_id)
            (upsert same_user merge_subscription rows new_row)
          ≡ held ∷ [])
        × IsRenewed after_days user_id pkg now held
  unfolding upsert
  upserted [] h = (new_row, rw mine refl, fresh-IsRenewed)
  upserted (s ∷ rows) h = elim (Bool-cases (s.user_id == user_id)) [
    | inl same ↦
        let alone = filter-none user_id rows (ground (arith, h, same)) in
        (merge_subscription s new_row, rw (same_key s, same, mine, alone) refl, merged-IsRenewed s)
    | inr other ↦
        let rest = upserted rows (ground (arith, h, other)) in
        (rest.0, skipped s rows other ∙ rest.1, rest.2)
  ]

  others_kept :
      (rows : List UserSubscription)
      → filter (λ s. not (is_of user_id s)) (upsert same_user merge_subscription rows new_row)
        ≡ filter (λ s. not (is_of user_id s)) rows
  unfolding upsert
  others_kept rows =
      filter-upsert same_user merge_subscription (λ s. not (is_of user_id s))
        (λ old row same other. (rw ((==_iff old.user_id row.user_id).0 same) other, other)) rows
        new_row (rw mine refl)

-- An accepted subscription leaves the user, who had one row at most, with exactly one: it has the
-- plan, the name, the allowance and the expiry of a package that is there, and is activated now. The
-- rows of other users stay as they are.
pub subscribe-IsRenewed :
    (after_days : ℕ → Text) (user_id package_id id : ℕ) (actor now : Text) (db : Database)
    (row : Option UserSubscription)
    → count (is_of user_id) db.user_packages ≤ 1
    → (subscribe after_days user_id (some package_id) id actor now db).answer ≡ answered row
    → let saved =
        (subscribe after_days user_id (some package_id) id actor now db).db.user_packages in
      (pkg : Package) × (get_package db package_id ≡ some pkg)
      × (held : UserSubscription) × (filter (is_of user_id) saved ≡ held ∷ [])
      × IsRenewed after_days user_id pkg now held
      × (filter (λ s. not (is_of user_id s)) saved
          ≡ filter (λ s. not (is_of user_id s)) db.user_packages)
unfolding subscribe put_subscription record_audit
subscribe-IsRenewed after_days user_id package_id id actor now db row one done =
    elim (Bool-cases (is_user_row_admin db user_id)) [
      | inl admin ↦ absurd (ground (arith, done, admin))
      | inr tenant ↦ elim (Option-cases (get_user db user_id)) [
        | inl missing ↦ absurd (ground (arith, done, tenant, missing))
        | inr (user, there) ↦ elim (Option-cases (get_package db package_id)) [
          | inl gone ↦ absurd (ground (arith, done, tenant, there, gone))
          | inr (pkg, found) ↦
              let r = upserted after_days user_id pkg now id db.user_packages one in
              (
                pkg,
                found,
                r.0,
                rw (tenant, there, found) r.1,
                r.2,
                rw (tenant, there, found)
                    (others_kept after_days user_id pkg now id db.user_packages),
              )
        ]
      ]
    ]
