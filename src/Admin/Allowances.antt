-- ===== src/Admin/Allowances.antt =====
-- apps/server/src/routes/admin.ts: `validateRuleOwnership` in terms of rows, package and clock.
use tyz.Db.Counting.{count, length-filter, count-filter, count-same}
use tyz.Admin.Shape.{on_tunnel}
use tyz.Js.Map.{has, distinct, has-distinct}
use tyz.Prelude.{
  ℕ, ◌<◌, ◌≡◌, refl, sym, ◌∙◌, Bool, true, false, not, ◌&&◌, Option, none, some, List, [], ◌∷◌,
  Text, map, filter, arith, ◌==◌, nat_eq, ◌↔◌, ◌⊎◌, inl, inr, Bool-cases, Option-cases, ==-refl,
  ==_iff,
}
use tyz.Js.Map
use tyz.Js.Text.{text_le}
use tyz.Quota.Subscriptions.{get_active_subscriptions-IsCurrent}
use tyz.Entities.{UserStatus, active, disabled, Package, RelayRule, Chain}
use tyz.Db.{Database, UserRow}
use tyz.Quota.{ActiveSubscription, get_active_subscriptions, is_active, is_owned_by, is_past}
use tyz.Admin.Ownership.{
  get_user, is_granted, is_excluded, missing_nodes, tunnel_problem, owned_count, count_problem,
  subscription_problem, nodes_problem,
}

-- The package grants the tunnel and the node of each of its links.
abbrev pub IsGranted : Database → Package → Option ℕ → Type 0
IsGranted db pkg none = Unit
IsGranted db pkg (some t) =
    (is_granted pkg.tunnel_ids t ≡ true)
    × ((n : ℕ)
        → has (map (λ (c : Chain). c.node_id) (filter (on_tunnel t) db.chains)) n ≡ true
        → is_granted pkg.node_ids n ≡ true)

-- The rule's owner is the user, and it is not the rule that is being changed.
abbrev pub counts : ℕ → Option ℕ → RelayRule → Bool
counts user_id exclude r =
    elim r.user_id [ none ↦ false | some u ↦ u == user_id ]
    && elim exclude [ none ↦ true | some id ↦ not (r.id == id) ]

abbrev pub HasRoom : Database → Package → ℕ → Option ℕ → Type 0
HasRoom db pkg user_id exclude =
    (pkg.max_rules ≡ 0) ⊎ (count (counts user_id exclude) db.relay_rules < pkg.max_rules)

-- The subscription has no end, or one that is later than now.
abbrev pub IsRunning : Option Text → Text → Type 0
IsRunning none now = Unit
IsRunning (some expires_at) now = text_le expires_at now ≡ false

-- An active user, a subscription that has not run out, granted access, and room for one more rule.
pub record IsAllowed (db : Database) (user_id : ℕ) (tunnel_id exclude : Option ℕ) (now : Text)
    : Type 0 where
  pub user : UserRow
  pub user_found : get_user db user_id ≡ some user
  pub user_active : user.status ≡ active
  pub sub : ActiveSubscription
  pub sub_found : Map.get (get_active_subscriptions db (user_id ∷ []) now) user_id ≡ some sub
  pub sub_owner : sub.subscription.user_id ≡ user_id
  pub sub_package : sub.pkg.id ≡ sub.subscription.package_id
  pub sub_running : IsRunning sub.subscription.expires_at now
  pub granted : IsGranted db sub.pkg tunnel_id
  pub room : HasRoom db sub.pkg user_id exclude

-- Nothing fails a test exactly when every member passes it.
none_fails :
    (p : ℕ → Bool) (xs : List ℕ)
    → (filter (λ x. not (p x)) xs ≡ []) ↔ ((n : ℕ) → has xs n ≡ true → p n ≡ true)
none_fails p [] = (λ _ n h. absurd (ground (arith, h)), λ _. refl)
none_fails p (x ∷ xs) = elim (Bool-cases (p x)) [
  | inl passes ↦ rw passes (
    λ e n h. elim (Bool-cases (x == n)) [
      | inl same ↦ rw (← (==_iff x n).0 same) passes
      | inr other ↦ (none_fails p xs).0 e n (ground (arith, h, other))
    ],
    λ h. (none_fails p xs).1 (λ n member. h n (ground (arith, member))),
  )
  | inr fails ↦
      rw fails
        (λ e. absurd (ground (arith, e)), λ h. absurd (ground (arith, h x, fails, ==-refl x)))
]

missing_nodes-none :
    (db : Database) (pkg : Package) (t : ℕ)
    → (missing_nodes db pkg t ≡ []) ↔ (
        (n : ℕ)
        → has (map (λ (c : Chain). c.node_id) (filter (on_tunnel t) db.chains)) n ≡ true
        → is_granted pkg.node_ids n ≡ true)
unfolding missing_nodes
missing_nodes-none db pkg t =
    let nodes = map (λ (c : Chain). c.node_id) (filter (on_tunnel t) db.chains) in
    let all_pass = none_fails (is_granted pkg.node_ids) (distinct nodes) in
    (
      λ e n member. all_pass.0 e n (has-distinct nodes n ∙ member),
      λ h. all_pass.1 (λ n member. h n (sym (has-distinct nodes n) ∙ member)),
    )

nodes_problem-none :
    (pkg : Package) (t : ℕ) (ids : List ℕ) → (nodes_problem pkg t ids ≡ none) ↔ (ids ≡ [])
unfolding nodes_problem
nodes_problem-none pkg t [] = (λ _. refl, λ _. refl)
nodes_problem-none pkg t (id ∷ ids) =
    (λ h. absurd (ground (arith, h)), λ h. absurd (ground (arith, h)))

tunnel_problem-none :
    (db : Database) (pkg : Package) (tunnel_id : Option ℕ)
    → (tunnel_problem db pkg tunnel_id ≡ none) ↔ IsGranted db pkg tunnel_id
unfolding tunnel_problem
tunnel_problem-none db pkg none = (λ _. tt, λ _. refl)
tunnel_problem-none db pkg (some t) =
    let nodes = missing_nodes-none db pkg t in
    let problem = nodes_problem-none pkg t (missing_nodes db pkg t) in
    elim (Bool-cases (is_granted pkg.tunnel_ids t)) [
      | inl granted ↦ rw granted (λ h. (refl, nodes.0 (problem.0 h)), λ h. problem.1 (nodes.1 h.1))
      | inr refused ↦
          rw refused (λ h. absurd (ground (arith, h)), λ h. absurd (ground (arith, h.0)))
    ]

pub owned_count-counts :
    (db : Database) (user_id : ℕ) (exclude : Option ℕ)
    → owned_count db user_id exclude ≡ count (counts user_id exclude) db.relay_rules
unfolding owned_count is_owned_by
owned_count-counts db user_id exclude =
    length-filter _ (filter (is_owned_by user_id) db.relay_rules)
    ∙ count-filter _ (is_owned_by user_id) db.relay_rules
    ∙ count-same _ (counts user_id exclude) (same exclude) db.relay_rules
  where
    same :
        (exclude : Option ℕ) (r : RelayRule)
        → (is_owned_by user_id r && not (is_excluded exclude r)) ≡ counts user_id exclude r
    same none r = refl
    same (some id) r = refl

count_problem-none :
    (db : Database) (pkg : Package) (user_id : ℕ) (exclude : Option ℕ)
    → (count_problem db pkg user_id exclude ≡ none) ↔ HasRoom db pkg user_id exclude
unfolding count_problem
count_problem-none db pkg user_id exclude = ground (arith, owned_count-counts db user_id exclude)

pub is_active-active : (status : UserStatus) → (is_active status ≡ true) ↔ (status ≡ active)
unfolding is_active
is_active-active active = ground arith
is_active-active disabled = (λ h. absurd (ground (arith, h)), λ h. absurd (ground (arith, h)))

-- The flag of a subscription that is found tells whether it runs.
pub expired-IsRunning :
    (db : Database) (user_id : ℕ) (now : Text) (sub : ActiveSubscription)
    → Map.get (get_active_subscriptions db (user_id ∷ []) now) user_id ≡ some sub
    → (sub.expired ≡ false) ↔ IsRunning sub.subscription.expires_at now
unfolding is_past
expired-IsRunning db user_id now sub found =
    let (owner, joined, flag) =
      get_active_subscriptions-IsCurrent db (user_id ∷ []) now user_id sub found in
    elim (Option-cases sub.subscription.expires_at) [
      | inl endless ↦ rw (flag, endless) (λ _. tt, λ _. refl)
      | inr (end, ends) ↦ rw (flag, ends) (λ h. h, λ h. h)
    ]

pub subscription_problem-none :
    (db : Database) (sub : ActiveSubscription) (user_id : ℕ) (tunnel_id exclude : Option ℕ)
    → (subscription_problem db sub user_id tunnel_id exclude ≡ none) ↔ (
        (sub.expired ≡ false) × IsGranted db sub.pkg tunnel_id × HasRoom db sub.pkg user_id exclude)
unfolding subscription_problem
subscription_problem-none db sub user_id tunnel_id exclude =
    let access = tunnel_problem-none db sub.pkg tunnel_id in
    let room = count_problem-none db sub.pkg user_id exclude in
    elim (Bool-cases sub.expired) [
      | inl over ↦ rw over (λ h. absurd (ground (arith, h)), λ h. absurd (ground (arith, h.0)))
      | inr running ↦ elim (Option-cases (tunnel_problem db sub.pkg tunnel_id)) [
        | inl fine ↦ rw (running, fine) (λ h. (refl, access.0 fine, room.0 h), λ h. room.1 h.2)
        | inr (problem, bad) ↦
            rw (running, bad)
              (
                λ h. absurd (ground (arith, h)),
                λ h. absurd (ground (arith, sym (access.1 h.1) ∙ bad)),
              )
      ]
    ]
