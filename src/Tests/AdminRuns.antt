-- ===== src/Tests/AdminRuns.antt =====
-- Requests of the panel: a TLS tunnel is built link by link, and an endpoint moves under its rule.
use tyz.Prelude.{
  ℕ, ◌≤◌, ◌≡◌, refl, false, true, none, some, [], ◌∷◌, Text, arith, ◌↔◌, ◌⊎◌, nat_eq, List, filter,
  not,
}
use tyz.Js.Map
use tyz.Js.Map.{has}
use tyz.Js.Text.{codes}
use tyz.Entities.{
  in_link, out_link, Transport, created, active, disabled, UserSubscription, Package,
}
use tyz.Db.{Database, admin}
use tyz.Realm.Snapshot.{get_node_config_snapshot}
use tyz.Quota.{is_active, is_owned_by}
use tyz.Db.Statements.{upsert, order_by}
use tyz.Admin.Shape.{tunnel_shape}
use tyz.Admin.Chains.{CreateChainInput, UpdateChainInput, create_chain, delete_chain, update_chain}
use tyz.Admin.Tunnels.{
  CreateTunnelInput, UpdateTunnelInput, create_tunnel, update_tunnel, delete_tunnel,
}
use tyz.Admin.Sound.{
  untouched, then_write, create_link, change_link, open_tunnel, IsSound, Writes-IsSound,
}
use tyz.Admin.Ownership.{validate_rule_ownership, owned_count}
use tyz.Admin.Allowances.{IsAllowed}
use tyz.Admin.Limits.{validate_rule_ownership-IsAllowed, create_rule-limit}
use tyz.Admin.Endpoints.{
  CreateEndpointInput, UpdateEndpointInput, create_endpoint, update_endpoint, delete_endpoint,
}
use tyz.Admin.Rules.{
  CreateRuleInput, UpdateRuleInput, create_rule, created_rule, update_rule, delete_rule,
  restart_rule, reset_traffic,
}
use tyz.Admin.RuleWrites.{
  no_write, next_write, add_endpoint, add_rule, change_endpoint, writes-IsAddressed,
}
use tyz.Admin.Addressed.{IsAddressed}
use tyz.Admin.Users.{
  CreateUserInput, UpdateUserInput, create_user, update_user, delete_user, subscribe, get_package,
  put_subscription, subscription_row, expiry_of,
}
use tyz.Admin.Packages.{
  CreatePackageInput, UpdatePackageInput, create_package, update_package, delete_package,
}
use tyz.Admin.Renewal.{is_of, IsRenewed, subscribe-IsRenewed}
use tyz.Admin.Shielded.{admins, tenant_requests-admins}
use tyz.Admin.Refusals.{IsClean, refusals}
use tyz.Admin.Deferred.{finish, delete_chain-leaves_behind}
use tyz.Tests.TlsRuns.{issuer}
use tyz.Tests.RealmRuns.{by_code, summary}
use tyz.Tests.Fixtures
use tyz.Tests.Fixtures.{time, db, plan, plan_of_owner, owner}

abbrev operator : Text
operator = codes "root"

-- No tunnel and no link yet.
abbrev bare : Database
bare = record db { tunnels = []; chains = [] }

bare-IsSound : IsSound bare
unfolding tunnel_shape
bare-IsSound = record {
  shaped = λ t. (omega arith, λ row found tls. absurd (ground (arith, found)));
  keyed = λ id. omega arith;
  linked = λ t missing. refl;
}

abbrev tunnel_input : CreateTunnelInput
tunnel_input = record {
  name = codes "tunnel";
  description = none;
  ingress_display_address = none;
  tls_enabled = false;
}

abbrev link_input : ℕ → CreateChainInput
link_input node_id = record {
  tunnel_id = 10;
  node_id = node_id;
  chain_type = in_link;
  transport = Transport.tls;
  index = 0;
  strategy = codes "round";
  port = 8443;
}

-- The second node's link becomes the way out.
abbrev link_change : UpdateChainInput
link_change = record {
  tunnel_id = none;
  node_id = some 2;
  chain_type = some out_link;
  transport = none;
  index = none;
  strategy = none;
  port = some 9443;
}

abbrev opened : Database
opened = (create_tunnel (some tunnel_input) 10 (codes "0123456789") (codes "p") time bare).db

abbrev entered : Database
entered = (create_chain (some (link_input 1)) 1 time opened).db

abbrev turned : Database
turned = (update_chain 1 (some link_change) time entered).db

Writes-IsSound_example : IsSound turned
unfolding create_tunnel
Writes-IsSound_example =
    Writes-IsSound
      (then_write entered
        (then_write opened
          (then_write bare untouched
            (open_tunnel tunnel_input 10 (codes "0123456789") (codes "p") time refl))
          (create_link (link_input 1) 1 time refl))
        (change_link 1 link_change time))
      bare-IsSound

-- No rule and no endpoint yet.
abbrev unruled : Database
unruled = record db { endpoints = []; relay_rules = [] }

abbrev endpoint_input : CreateEndpointInput
endpoint_input = record { name = codes "web"; host = codes "fd00::1"; port = 443; note = none }

abbrev endpoint_change : UpdateEndpointInput
endpoint_change = record {
  name = none;
  host = some (codes "web.example.org");
  port = none;
  note = none;
}

abbrev rule_input : CreateRuleInput
rule_input = record {
  name = codes "rule";
  description = none;
  listen_port = 16500;
  tunnel_id = 10;
  targets = codes "ignored:1";
  endpoint_id = some 5;
  user_id = none;
  status = created;
  exit_port = 0;
  limit = none;
}

abbrev with_endpoint : Database
with_endpoint = (create_endpoint (some endpoint_input) 5 operator time unruled).db

abbrev with_rule : Database
with_rule = (create_rule (some rule_input) 200 operator time with_endpoint).db

abbrev moved : Database
moved = (update_endpoint 5 (some endpoint_change) operator time with_rule).db

writes-IsAddressed_example : IsAddressed moved
unfolding create_endpoint
writes-IsAddressed_example =
    writes-IsAddressed
      (next_write operator time with_rule
        (next_write operator time with_endpoint
          (next_write operator time unruled no_write (add_endpoint endpoint_input 5))
          (add_rule rule_input 200 refl))
        (change_endpoint 5 endpoint_change))
      (record { keyed = λ id. omega arith; on_target = tt })

validate_rule_ownership-IsAllowed_example :
    (validate_rule_ownership db 9 (some 10) none time ≡ none) ↔ IsAllowed db 9 (some 10) none time
validate_rule_ownership-IsAllowed_example =
    validate_rule_ownership-IsAllowed db 9 (some 10) none time

-- A package of two rules, of which the tenant has one.
abbrev limited : Database
limited = record db { packages = record plan { max_rules = 2 } ∷ [] }

abbrev owned_input : CreateRuleInput
owned_input = record rule_input { endpoint_id = none; user_id = some 9 }

create_rule-limit_example :
    (allowed : IsAllowed limited 9 (some 10) none time) × ((allowed.sub.pkg.max_rules ≡ 0)
      ⊎ (owned_count (create_rule (some owned_input) 200 operator time limited).db 9 none
          ≤ allowed.sub.pkg.max_rules))
unfolding create_rule created_rule is_active Map.get Map.index_by order_by Map.set Map.distinct
    is_owned_by
create_rule-limit_example =
    create_rule-limit owned_input 200 operator time limited 9
      (created_rule owned_input (codes "ignored:1") 200 time) refl refl

abbrev user_input : CreateUserInput
user_input = record { name = codes "u10"; note = none; status = active }

abbrev user_change : UpdateUserInput
user_change = record { name = none; note = none; status = some disabled }

abbrev in_days : ℕ → Text
in_days days = codes "2027-01-01T00:00:00.000Z"

-- A tenant and an administrator.
abbrev staffed : Database
staffed = record db {
  users = owner ∷ record owner { entity = record owner.entity { id = 1 }; role = admin } ∷ [];
}

tenant_requests-admins_example :
    (admins (create_user (some user_input) 10 operator time staffed).db ≡ admins staffed)
    × (admins (update_user 9 (some user_change) operator time staffed).db ≡ admins staffed)
    × (admins (delete_user 9 operator time staffed).db ≡ admins staffed)
    × (admins (subscribe in_days 9 (some 1) 10 operator time staffed).db ≡ admins staffed)
tenant_requests-admins_example =
    tenant_requests-admins in_days 9 10 1 user_input user_change operator time staffed (omega arith)

-- The row of the owner after a renewal at a later time.
abbrev renewed_row : UserSubscription
renewed_row = record plan_of_owner {
  activated_at = codes "2026-09-16";
  updated_at = codes "2026-09-16";
}

abbrev renewed : List UserSubscription
renewed = (subscribe in_days 9 (some 1) 10 operator (codes "2026-09-16") db).db.user_packages

subscribe-IsRenewed_example :
    (pkg : Package) × (get_package db 1 ≡ some pkg)
    × (held : UserSubscription) × (filter (is_of 9) renewed ≡ held ∷ [])
    × IsRenewed in_days 9 pkg (codes "2026-09-16") held
    × (filter (λ s. not (is_of 9 s)) renewed ≡ filter (λ s. not (is_of 9 s)) db.user_packages)
unfolding subscribe put_subscription upsert subscription_row expiry_of
subscribe-IsRenewed_example =
    subscribe-IsRenewed in_days 9 1 10 operator (codes "2026-09-16") db (some renewed_row)
      (omega arith) refl

abbrev plan_input : CreatePackageInput
plan_input = record {
  name = codes "plan";
  note = none;
  traffic_bytes = 0;
  period_days = 30;
  node_ids = none;
  tunnel_ids = some (10 ∷ []);
  max_rules = 5;
}

abbrev plan_change : UpdatePackageInput
plan_change = record {
  name = none;
  note = none;
  traffic_bytes = some 5;
  period_days = none;
  node_ids = some none;
  tunnel_ids = none;
  max_rules = none;
}

abbrev tunnel_change : UpdateTunnelInput
tunnel_change = record {
  name = none;
  description = none;
  ingress_display_address = none;
  tls_enabled = some true;
}

abbrev rule_change : UpdateRuleInput
rule_change = record {
  name = some (codes "r");
  description = none;
  listen_port = none;
  tunnel_id = none;
  targets = none;
  endpoint_id = some (some 6);
  user_id = none;
  status = none;
  exit_port = none;
  limit = none;
}

refusals_example :
    (IsClean db (create_chain (some (link_input 1)) 1 time db)
      × IsClean db (update_chain 1 (some link_change) time db)
      × IsClean db (delete_chain 1 db)
      × IsClean db (create_tunnel (some tunnel_input) 1 operator operator time db)
      × IsClean db (update_tunnel 1 (some tunnel_change) time db)
      × IsClean db (delete_tunnel 1 db))
    × (IsClean db (create_rule (some rule_input) 1 operator time db)
        × IsClean db (update_rule 1 (some rule_change) operator time db)
        × IsClean db (delete_rule 1 operator time db)
        × IsClean db (restart_rule 1 operator time db)
        × IsClean db (reset_traffic 1 operator time db)
        × IsClean db (create_endpoint none 1 operator time db)
        × IsClean db (update_endpoint 1 (some endpoint_change) operator time db)
        × IsClean db (delete_endpoint 1 operator time db))
    × (IsClean db (create_user (some user_input) 1 operator time db)
        × IsClean db (update_user 1 (some user_change) operator time db)
        × IsClean db (delete_user 1 operator time db)
        × IsClean db (subscribe in_days 1 (some 1) 2 operator time db)
        × IsClean db (create_package (some plan_input) 1 operator time db)
        × IsClean db (update_package 1 (some plan_change) operator time db)
        × IsClean db (delete_package 1 operator time db))
refusals_example =
    refusals in_days db 1 2 operator time operator operator (some (link_input 1)) (some link_change)
      (some tunnel_input) (some tunnel_change) (some rule_input) (some rule_change) none
      (some endpoint_change) (some user_input) (some user_change) (some 1) (some plan_input)
      (some plan_change)

delete_chain-leaves_behind_example :
    get_node_config_snapshot (finish issuer by_code summary 1786854000 time (delete_chain 2 db)).0 2
    ≡ get_node_config_snapshot db 2
delete_chain-leaves_behind_example =
    delete_chain-leaves_behind issuer by_code summary 1786854000 time db 2
      (Fixtures.link 2 10 2 out_link) refl refl
