-- ===== src/Quota/Subscriptions.antt =====
-- `getActiveSubscriptions`: what a subscription that is found is worth.
use tyz.Prelude.{
  ℕ, ◌≡◌, refl, true, some, List, [], ◌∷◌, Text, ◌==◌, ==_iff, nat_eq, All, All-imp, All-filter_of,
  All-append, All-map, All-filter,
}
use tyz.Js.Map
use tyz.Js.Map.{has, index_by-every}
use tyz.Entities.{Package, UserSubscription}
use tyz.Db.{Database}
use tyz.Db.Statements.{order_by}
use tyz.Quota.{
  ActiveSubscription, with_packages, is_past, active_subscription, get_active_subscriptions,
}

-- A row and the package that it names.
abbrev IsJoined : UserSubscription × Package → Type 0
IsJoined row = row.1.id ≡ row.0.package_id

with_packages-IsJoined :
    (packages : List Package) (rows : List UserSubscription)
    → All IsJoined (with_packages packages rows)
unfolding with_packages
with_packages-IsJoined packages [] = tt
with_packages-IsJoined packages (s ∷ rows) =
    All-append IsJoined _ _
      (All-map IsJoined (λ p. (s, p)) _
        (All-imp (λ p. (p.id == s.package_id) ≡ true) (λ p. p.id ≡ s.package_id)
          (λ p h. (==_iff p.id s.package_id).0 h) _
          (All-filter (λ p. p.id == s.package_id) packages)))
      (with_packages-IsJoined packages rows)

-- Of the user and the package that it names, and run out exactly if its end is not after now.
abbrev pub IsCurrent : Text → ℕ → ActiveSubscription → Type 0
IsCurrent now user_id sub =
    (sub.subscription.user_id ≡ user_id)
    × (sub.pkg.id ≡ sub.subscription.package_id)
    × (sub.expired ≡ is_past sub.subscription.expires_at now)

pub get_active_subscriptions-IsCurrent :
    (db : Database) (ids : List ℕ) (now : Text) (user_id : ℕ) (sub : ActiveSubscription)
    → Map.get (get_active_subscriptions db ids now) user_id ≡ some sub
    → IsCurrent now user_id sub
unfolding get_active_subscriptions active_subscription
get_active_subscriptions-IsCurrent db ids now user_id sub found =
    index_by-every (λ row. row.0.user_id) (active_subscription now)
      (λ entry. IsCurrent now entry.0 entry.1) _ user_id
      (All-imp IsJoined _ (λ row joined. (refl, joined, refl)) _
        (All-filter_of IsJoined (λ row. has ids row.0.user_id) _
          (with_packages-IsJoined db.packages (order_by (λ s. s.id) db.user_packages))))
      found
