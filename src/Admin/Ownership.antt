-- ===== src/Admin/Ownership.antt =====
-- apps/server/src/routes/admin.ts: whether a tenant's package allows a rule.
use tyz.Prelude.{
  ℕ, Bool, true, false, not, ◌&&◌, Option, none, some, List, [], ◌∷◌, ◌++◌, Text, map, filter,
  find?, length, leb, ltb, if◌then◌else◌, ◌==◌, nat_eq,
}
use tyz.Js.Map
use tyz.Js.Map.{has, distinct}
use tyz.Js.Text.{codes}
use tyz.Js.Text.Decimal.{show}
use tyz.Entities.{Chain, RelayRule, Package}
use tyz.Db.{Database, UserRow}
use tyz.Quota.{ActiveSubscription, get_active_subscriptions, is_active, is_owned_by}
use tyz.Admin.Shape.{on_tunnel}

abbrev pub get_user : Database → ℕ → Option UserRow
get_user db id = find? (λ (row : UserRow). row.id == id) db.users

-- `.join(", ")`
abbrev joined : List ℕ → Text
joined [] = []
joined (n ∷ []) = show n
joined (n ∷ m ∷ ns) = show n ++ codes ", " ++ joined (m ∷ ns)

abbrev pub is_granted : Option (List ℕ) → ℕ → Bool
is_granted none id = true
is_granted (some ids) id = has ids id

abbrev pub tunnel_node_ids : Database → ℕ → List ℕ
tunnel_node_ids db tunnel_id =
    distinct (map (λ (c : Chain). c.node_id) (filter (on_tunnel tunnel_id) db.chains))

unfoldable pub missing_nodes : Database → Package → ℕ → List ℕ
missing_nodes db pkg tunnel_id =
    filter (λ id. not (is_granted pkg.node_ids id)) (tunnel_node_ids db tunnel_id)

unfoldable pub nodes_problem : Package → ℕ → List ℕ → Option Text
nodes_problem pkg t [] = none
nodes_problem pkg t (id ∷ ids) = some (
    codes "package "
    ++ pkg.name
    ++ codes " does not grant access to node(s) "
    ++ joined (id ∷ ids)
    ++ codes " of tunnel "
    ++ show t)

unfoldable pub tunnel_problem : Database → Package → Option ℕ → Option Text
unfolding missing_nodes nodes_problem
tunnel_problem db pkg none = none
tunnel_problem db pkg (some t) =
    if not (is_granted pkg.tunnel_ids t)
    then some (codes "package " ++ pkg.name ++ codes " does not grant access to tunnel " ++ show t)
    else nodes_problem pkg t (missing_nodes db pkg t)

abbrev pub is_excluded : Option ℕ → RelayRule → Bool
is_excluded none r = false
is_excluded (some id) r = r.id == id

-- The user's rules but the one that is updated.
unfoldable pub owned_count : Database → ℕ → Option ℕ → ℕ
owned_count db user_id exclude = length (
    filter (λ (r : RelayRule). not (is_excluded exclude r))
      (filter (is_owned_by user_id) db.relay_rules))

unfoldable pub count_problem : Database → Package → ℕ → Option ℕ → Option Text
unfolding owned_count
count_problem db pkg user_id exclude =
    let count = owned_count db user_id exclude in
    if ltb 0 pkg.max_rules && leb pkg.max_rules count
    then some (
        codes "package "
        ++ pkg.name
        ++ codes " allows at most "
        ++ show pkg.max_rules
        ++ codes " rules (user "
        ++ show user_id
        ++ codes " already has "
        ++ show count
        ++ codes ")")
    else none

unfoldable pub subscription_problem :
    Database → ActiveSubscription → ℕ → Option ℕ → Option ℕ → Option Text
unfolding tunnel_problem count_problem
subscription_problem db sub user_id tunnel_id exclude =
    if sub.expired
    then some (
        codes "subscription of user "
        ++ show user_id
        ++ codes " (package "
        ++ sub.pkg.name
        ++ codes ") has expired")
    else elim (tunnel_problem db sub.pkg tunnel_id) [
      | some problem ↦ some problem
      | none ↦ count_problem db sub.pkg user_id exclude
    ]

unfoldable pub validate_rule_ownership : Database → ℕ → Option ℕ → Option ℕ → Text → Option Text
unfolding subscription_problem get_active_subscriptions
validate_rule_ownership db user_id tunnel_id exclude now = elim (get_user db user_id) [
  | none ↦ some (codes "user " ++ show user_id ++ codes " not found")
  | some user ↦
      if not (is_active user.status)
      then some (codes "user " ++ show user_id ++ codes " is disabled")
      else elim (Map.get (get_active_subscriptions db (user_id ∷ []) now) user_id) [
        | none ↦ some (codes "user " ++ show user_id ++ codes " has no active subscription")
        | some sub ↦ subscription_problem db sub user_id tunnel_id exclude
      ]
]
