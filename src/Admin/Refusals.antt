-- ===== src/Admin/Refusals.antt =====
-- apps/server/src/routes/admin.ts: what a refused request leaves behind.
use tyz.Prelude.{ℕ, ◌≡◌, Text, [], arith, Option}
use tyz.Db.{Database}
use tyz.Admin.{refused, Response}
use tyz.Admin.Chains.{CreateChainInput, UpdateChainInput, create_chain, update_chain, delete_chain}
use tyz.Admin.Tunnels.{
  CreateTunnelInput, UpdateTunnelInput, create_tunnel, update_tunnel, delete_tunnel,
}
use tyz.Admin.Rules.{
  CreateRuleInput, UpdateRuleInput, insert_rule, create_rule, save_rule, update_rule, delete_rule,
  restart_rule, reset_traffic,
}
use tyz.Admin.Endpoints.{
  CreateEndpointInput, UpdateEndpointInput, create_endpoint, update_endpoint, delete_endpoint,
}
use tyz.Admin.Users.{
  CreateUserInput, UpdateUserInput, create_user, save_user, update_user, delete_user, subscribe,
}
use tyz.Admin.Packages.{
  CreatePackageInput, UpdatePackageInput, create_package, update_package, delete_package,
}

-- A refusal writes nothing, not even to the audit trail, and defers nothing.
abbrev pub IsClean {ℓ} : {A : Type ℓ} → Database → Response A → Type ℓ
IsClean {A = A} db r =
    (status : ℕ) (error : Text) → r.answer ≡ refused status error → (r.db ≡ db) × (r.work ≡ [])

-- The requests that create, change or delete a tunnel or a link.
link_refusals :
    (db : Database) (id : ℕ) (now user_token pass_token : Text) (link : Option CreateChainInput)
    (link_update : Option UpdateChainInput) (tunnel : Option CreateTunnelInput)
    (tunnel_update : Option UpdateTunnelInput)
    → IsClean db (create_chain link id now db)
      × IsClean db (update_chain id link_update now db)
      × IsClean db (delete_chain id db)
      × IsClean db (create_tunnel tunnel id user_token pass_token now db)
      × IsClean db (update_tunnel id tunnel_update now db)
      × IsClean db (delete_tunnel id db)
unfolding create_chain update_chain delete_chain create_tunnel update_tunnel delete_tunnel
link_refusals db id now user_token pass_token link link_update tunnel tunnel_update = (
  λ status error h. ground arith,
  λ status error h. ground arith,
  λ status error h. ground arith,
  λ status error h. ground arith,
  λ status error h. ground arith,
  λ status error h. ground arith,
)

-- The requests of rules, their restart and the reset of their counters, and of endpoints.
rule_refusals :
    (db : Database) (id : ℕ) (actor now : Text) (rule : Option CreateRuleInput)
    (rule_update : Option UpdateRuleInput) (endpoint : Option CreateEndpointInput)
    (endpoint_update : Option UpdateEndpointInput)
    → IsClean db (create_rule rule id actor now db)
      × IsClean db (update_rule id rule_update actor now db)
      × IsClean db (delete_rule id actor now db)
      × IsClean db (restart_rule id actor now db)
      × IsClean db (reset_traffic id actor now db)
      × IsClean db (create_endpoint endpoint id actor now db)
      × IsClean db (update_endpoint id endpoint_update actor now db)
      × IsClean db (delete_endpoint id actor now db)
unfolding create_rule insert_rule update_rule save_rule delete_rule restart_rule reset_traffic
    create_endpoint update_endpoint delete_endpoint
rule_refusals db id actor now rule rule_update endpoint endpoint_update = (
  λ status error h. ground arith,
  λ status error h. ground arith,
  λ status error h. ground arith,
  λ status error h. ground arith,
  λ status error h. ground arith,
  λ status error h. ground arith,
  λ status error h. ground arith,
  λ status error h. ground arith,
)

-- The requests of tenants, their subscriptions, and packages.
user_refusals :
    (after_days : ℕ → Text) (db : Database) (id new_id : ℕ) (actor now : Text)
    (user : Option CreateUserInput) (user_update : Option UpdateUserInput) (package_id : Option ℕ)
    (plan : Option CreatePackageInput) (plan_update : Option UpdatePackageInput)
    → IsClean db (create_user user id actor now db)
      × IsClean db (update_user id user_update actor now db)
      × IsClean db (delete_user id actor now db)
      × IsClean db (subscribe after_days id package_id new_id actor now db)
      × IsClean db (create_package plan id actor now db)
      × IsClean db (update_package id plan_update actor now db)
      × IsClean db (delete_package id actor now db)
unfolding create_user update_user save_user delete_user subscribe create_package update_package
    delete_package
user_refusals after_days db id new_id actor now user user_update package_id plan plan_update = (
  λ status error h. ground arith,
  λ status error h. ground arith,
  λ status error h. ground arith,
  λ status error h. ground arith,
  λ status error h. ground arith,
  λ status error h. ground arith,
  λ status error h. ground arith,
)

module _ (after_days : ℕ → Text) (db : Database) (id new_id : ℕ)
    (actor now user_token pass_token : Text) where
  -- A refusal, for an invalid payload or any other reason, of a request that creates, changes or
  -- deletes a tunnel, a link, a rule, an endpoint, a tenant, a subscription or a package, or restarts
  -- a rule or resets its counters, leaves the database as it was, the audit trail included, and defers
  -- no work.
  pub refusals :
      (link : Option CreateChainInput) (link_update : Option UpdateChainInput)
      (tunnel : Option CreateTunnelInput) (tunnel_update : Option UpdateTunnelInput)
      (rule : Option CreateRuleInput) (rule_update : Option UpdateRuleInput)
      (endpoint : Option CreateEndpointInput) (endpoint_update : Option UpdateEndpointInput)
      (user : Option CreateUserInput) (user_update : Option UpdateUserInput) (package_id : Option ℕ)
      (plan : Option CreatePackageInput) (plan_update : Option UpdatePackageInput)
      → (IsClean db (create_chain link id now db)
          × IsClean db (update_chain id link_update now db)
          × IsClean db (delete_chain id db)
          × IsClean db (create_tunnel tunnel id user_token pass_token now db)
          × IsClean db (update_tunnel id tunnel_update now db)
          × IsClean db (delete_tunnel id db))
        × (IsClean db (create_rule rule id actor now db)
            × IsClean db (update_rule id rule_update actor now db)
            × IsClean db (delete_rule id actor now db)
            × IsClean db (restart_rule id actor now db)
            × IsClean db (reset_traffic id actor now db)
            × IsClean db (create_endpoint endpoint id actor now db)
            × IsClean db (update_endpoint id endpoint_update actor now db)
            × IsClean db (delete_endpoint id actor now db))
        × (IsClean db (create_user user id actor now db)
            × IsClean db (update_user id user_update actor now db)
            × IsClean db (delete_user id actor now db)
            × IsClean db (subscribe after_days id package_id new_id actor now db)
            × IsClean db (create_package plan id actor now db)
            × IsClean db (update_package id plan_update actor now db)
            × IsClean db (delete_package id actor now db))
  refusals link link_update tunnel tunnel_update rule rule_update endpoint endpoint_update user
        user_update package_id plan plan_update =
      (
        link_refusals db id now user_token pass_token link link_update tunnel tunnel_update,
        rule_refusals db id actor now rule rule_update endpoint endpoint_update,
        user_refusals after_days db id new_id actor now user user_update package_id plan
            plan_update,
      )
