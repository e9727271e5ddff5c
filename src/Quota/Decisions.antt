-- ===== src/Quota/Decisions.antt =====
-- What the allowance of one user is, and that asking for many users at once changes no answer.
use tyz.Prelude.{
  ℕ, ◌≤◌, ◌<◌, ◌≡◌, ◌↔◌, ◌⊎◌, true, Option, none, some, List, [], ◌∷◌, Text, arith, ==_iff, nat_eq,
  text_eq,
}
use tyz.Js.Map
use tyz.Js.Map.{JsMap, has, index_by, get-index_by-filter, get-index_by_self}
use tyz.Entities.{User, disabled}
use tyz.Db.{Database}
use tyz.Db.Statements.{order_by}
use tyz.Quota.{
  ActiveSubscription, QuotaDecision, user_usage_bytes, quota_for_user, get_user_statuses,
  get_active_subscriptions, quota_decisions_for_users, active_subscription, with_packages,
}

-- The user's charged bytes in the window of a subscription.
abbrev pub used_in : Database → User → ActiveSubscription → ℕ
used_in db user sub = user_usage_bytes db user.id sub.subscription.activated_at

-- The reasons to stop, in words of their own: first match wins in the code.
abbrev pub MustStop : Database → Option User → Option ActiveSubscription → Type 0
MustStop db none sub = Unit
MustStop db (some user) none = Unit
MustStop db (some user) (some sub) =
    (user.status ≡ disabled)
    ⊎ (sub.expired ≡ true)
    ⊎ ((0 < sub.pkg.traffic_bytes) × (sub.pkg.traffic_bytes ≤ used_in db user sub))

abbrev pub Stopped : QuotaDecision → Type 0
Stopped d = d.stopped ≡ true

-- A user is stopped exactly when there is no active user, no subscription, an expired one, or a
-- metered package that is used up.
pub Stopped-iff :
    (db : Database) (user : Option User) (sub : Option ActiveSubscription)
    → Stopped (quota_for_user db user sub) ↔ MustStop db user sub
unfolding quota_for_user
Stopped-iff db none sub = ground arith
Stopped-iff db (some user) none = ground arith
Stopped-iff db (some user) (some sub) = ground arith

-- The user and the subscription that a query for this id alone finds.
abbrev pub user_of : Database → ℕ → Option User
user_of db id = Map.get (get_user_statuses db (id ∷ [])) id

abbrev pub subscription_of : Database → Text → ℕ → Option ActiveSubscription
subscription_of db now id = Map.get (get_active_subscriptions db (id ∷ []) now) id

abbrev pub decision_of : Database → Text → ℕ → QuotaDecision
decision_of db now id = quota_for_user db (user_of db id) (subscription_of db now id)

module _ (ids : List ℕ) (id : ℕ) (asked : has ids id ≡ true) where
  same_answer : (j : ℕ) → j ≡ id → has ids j ≡ has (id ∷ []) j
  same_answer j h = ground (arith, ==_iff id j)

  user-batch : (db : Database) → Map.get (get_user_statuses db ids) id ≡ user_of db id
  unfolding get_user_statuses
  user-batch db =
      get-index_by-filter (λ row. row.id) (λ row. row.entity) (λ row. has ids row.id)
        (λ row. has (id ∷ []) row.id) id (λ row. same_answer row.id) db.users

  subscription-batch :
      (db : Database) (now : Text)
      → Map.get (get_active_subscriptions db ids now) id ≡ subscription_of db now id
  unfolding get_active_subscriptions
  subscription-batch db now =
      get-index_by-filter (λ row. row.0.user_id) (active_subscription now)
        (λ row. has ids row.0.user_id) (λ row. has (id ∷ []) row.0.user_id) id
        (λ row. same_answer row.0.user_id)
        (with_packages db.packages (order_by (λ s. s.id) db.user_packages))

  -- Deciding for many users in one batch gives each of those who are asked for the decision that he
  -- gets alone.
  pub decisions-batch :
      (db : Database) (now : Text)
      → Map.get (quota_decisions_for_users db ids now) id ≡ some (decision_of db now id)
  unfolding quota_decisions_for_users
  decisions-batch db now = rw (get-index_by_self, asked, user-batch db, subscription-batch db now)
