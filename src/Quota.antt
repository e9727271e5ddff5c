-- ===== src/Quota.antt =====
-- apps/server/src/services/quota.ts: packages and subscriptions decide whose rules are served.
-- `now` is the time that `new Date().toISOString()` reads.
pub mod Decisions
pub mod Gate
pub mod Sweep
pub mod Subscriptions
pub mod Deployed
pub mod Usage
use tyz.Prelude.{
  ℕ, ◌+◌, ◌-◌, Bool, true, false, not, ◌&&◌, ◌||◌, Option, none, some, List, [], ◌∷◌, ◌++◌, foldl,
  map, Text, leb, if◌then◌else◌, ◌==◌, nat_eq, filter, any, sum_of, or_else,
}
use tyz.Js.Map
use tyz.Js.Map.{JsMap, has, add, distinct, index_by}
use tyz.Js.Text.{codes, text_le, includes}
use tyz.Js.Text.Decimal.{show}
use tyz.Entities.{
  RelayRule, RuleQuota, Package, User, UserStatus, active, disabled, UserSubscription,
}
use tyz.Db.{Database, HourlyRow, UserRow, NodeConfigRow}
use tyz.Db.Statements.{chunk, order_by}
use tyz.Traffic.{hour_floor_iso}

pub record ActiveSubscription : Type 0 where
  pub subscription : UserSubscription
  pub pkg : Package
  pub expired : Bool

pub data QuotaReason : Type 0 where
  user_disabled no_subscription expired exhausted : QuotaReason

pub record QuotaDecision : Type 0 where
  pub stopped : Bool
  pub reason : Option QuotaReason
  pub quota : Option RuleQuota

pub record RuleQuotaStatus : Type 0 where
  pub rule_id : ℕ
  pub rule_name : Text
  pub used_bytes : ℕ

-- `userPackages` joined with `packages`, in the order of the subscriptions' ids
unfoldable pub with_packages :
    List Package → List UserSubscription → List (UserSubscription × Package)
with_packages packages [] = []
with_packages packages (s ∷ subscriptions) =
    map (λ p. (s, p)) (filter (λ p. p.id == s.package_id) packages)
    ++ with_packages packages subscriptions

unfoldable pub is_past : Option Text → Text → Bool
is_past none now = false
is_past (some expires_at) now = text_le expires_at now

unfoldable pub active_subscription : Text → UserSubscription × Package → ActiveSubscription
unfolding is_past
active_subscription now row = record {
  subscription = row.0;
  pkg = row.1;
  expired = is_past row.0.expires_at now;
}

unfoldable pub get_active_subscriptions : Database → List ℕ → Text → JsMap ℕ ActiveSubscription
unfolding with_packages active_subscription
get_active_subscriptions db user_ids now =
    index_by (λ row. row.0.user_id) (active_subscription now)
      (filter (λ row. has user_ids row.0.user_id)
        (with_packages db.packages (order_by (λ s. s.id) db.user_packages)))

unfoldable pub get_user_statuses : Database → List ℕ → JsMap ℕ User
get_user_statuses db user_ids =
    index_by (λ (row : UserRow). row.id) (λ row. row.entity)
      (filter (λ row. has user_ids row.id) db.users)

unfoldable pub is_owned_by : ℕ → RelayRule → Bool
is_owned_by user_id r = elim r.user_id [ none ↦ false | some u ↦ u == user_id ]

abbrev pub billed : HourlyRow → ℕ
billed h = h.billed_upload + h.billed_download

-- The charged bytes of all of the user's current rules since the hour of `since_iso`.
unfoldable pub user_usage_bytes : Database → ℕ → Text → ℕ
unfolding is_owned_by
user_usage_bytes db user_id since_iso =
    let owned = map (λ (r : RelayRule). r.id) (filter (is_owned_by user_id) db.relay_rules) in
    sum_of billed (
      filter (λ h. text_le (hour_floor_iso since_iso) h.hour_ts && has owned h.rule_id)
        db.traffic_hourly)

abbrev pub stop : QuotaReason → QuotaDecision
stop reason = record { stopped = true; reason = some reason; quota = none }

-- What is left of a metered package.
unfoldable pub metered : User → ActiveSubscription → ℕ → QuotaDecision
metered user sub used =
    let remaining = sub.pkg.traffic_bytes - used in
    if leb remaining 0 then stop exhausted else record {
      stopped = false;
      reason = none;
      quota = some (record {
        name = codes "quota-user-" ++ show user.id;
        limit_bytes = remaining;
        starts_at = sub.subscription.activated_at;
        expires_at = sub.subscription.expires_at;
      });
    }

unfoldable pub subscribed : Database → User → Option ActiveSubscription → QuotaDecision
unfolding metered
subscribed db user none = stop no_subscription
subscribed db user (some sub) =
    if sub.expired
    then stop expired
    else if leb sub.pkg.traffic_bytes 0
    then record { stopped = false; reason = none; quota = none }
    else metered user sub (user_usage_bytes db user.id sub.subscription.activated_at)

unfoldable pub is_active : UserStatus → Bool
is_active active = true
is_active disabled = false

unfoldable pub quota_for_user : Database → Option User → Option ActiveSubscription → QuotaDecision
unfolding subscribed is_active
quota_for_user db none sub = stop user_disabled
quota_for_user db (some user) sub =
    if is_active user.status then subscribed db user sub else stop user_disabled

-- `resolveQuotaDecisions`, exported as `quotaDecisionsForUsers`
unfoldable pub quota_decisions_for_users : Database → List ℕ → Text → JsMap ℕ QuotaDecision
quota_decisions_for_users db user_ids now =
    let user_by_id = get_user_statuses db user_ids in
    let sub_by_user = get_active_subscriptions db user_ids now in
    index_by (λ id. id) (λ id. quota_for_user db (Map.get user_by_id id) (Map.get sub_by_user id))
      user_ids

unfoldable pub owner_ids : List RelayRule → List ℕ
owner_ids [] = []
owner_ids (r ∷ rules) = elim r.user_id [ none ↦ owner_ids rules | some id ↦ id ∷ owner_ids rules ]

-- What the decision on its owner makes of a rule.
unfoldable pub gate : JsMap ℕ QuotaDecision → RelayRule → Option RelayRule
gate decision_by_user rule = elim rule.user_id [
  | none ↦ some rule
  | some id ↦ elim (Map.get decision_by_user id) [
    | none ↦ none
    | some decision ↦ if decision.stopped then none else elim decision.quota [
      | none ↦ some rule
      | some quota ↦ some (record rule { quota = some quota })
    ]
  ]
]

-- The loop: a rule that the gate refuses is left out.
unfoldable pub keep_gated : (RelayRule → Option RelayRule) → List RelayRule → List RelayRule
keep_gated f [] = []
keep_gated f (rule ∷ rules) =
    let rest = keep_gated f rules in elim (f rule) [ none ↦ rest | some kept ↦ kept ∷ rest ]

unfoldable pub apply_rule_quotas : Database → List RelayRule → Text → List RelayRule
unfolding gate keep_gated owner_ids
apply_rule_quotas db rules now =
    keep_gated (gate (quota_decisions_for_users db (distinct (owner_ids rules)) now)) rules

-- The distinct owners of the rules that reported, 90 ids to a statement.
unfoldable pub note_user : List ℕ → RelayRule → List ℕ
note_user owners r = elim r.user_id [ none ↦ owners | some u ↦ add owners u ]

unfoldable pub reported_owners : Database → List ℕ → List ℕ
unfolding note_user
reported_owners db rule_ids =
    foldl (λ owners part. foldl note_user owners (filter (λ r. has part r.id) db.relay_rules)) []
      (chunk rule_ids 90)

unfoldable pub is_stopped : JsMap ℕ QuotaDecision → ℕ → Bool
is_stopped decisions id = elim (Map.get decisions id) [ none ↦ false | some d ↦ d.stopped ]

-- `"name":"service-{id}"`
unfoldable pub needle : ℕ → Text
needle rule_id = codes "\"name\":\"service-" ++ show rule_id ++ codes "\""

unfoldable pub is_deployed : List NodeConfigRow → ℕ → Bool
unfolding needle
is_deployed snapshots rule_id = any (λ s. includes s.config_json (needle rule_id)) snapshots

-- A rule with no owner, or of a user already noted, is passed over.
unfoldable pub note_deployed : List NodeConfigRow → List ℕ → RelayRule → List ℕ
unfolding is_deployed
note_deployed snapshots deployed rule = elim rule.user_id [
  | none ↦ deployed
  | some u ↦
      if has deployed u
      then deployed
      else if is_deployed snapshots rule.id
      then add deployed u
      else deployed
]

unfoldable pub is_of_users : List ℕ → RelayRule → Bool
is_of_users users r = elim r.user_id [ none ↦ false | some u ↦ has users u ]

unfoldable pub quota_sweep_stopped_users : Database → List ℕ → Text → List ℕ
unfolding is_stopped note_deployed is_of_users
quota_sweep_stopped_users db rule_ids now =
    let owners = reported_owners db rule_ids in
    let decisions = quota_decisions_for_users db owners now in
    let stopped = filter (is_stopped decisions) owners in
    foldl (note_deployed db.node_configs) [] (filter (is_of_users stopped) db.relay_rules)

-- The charged bytes of each rule since the hour of `since_iso`: a row for each rule that has any,
-- 90 ids to a statement.
unfoldable pub usage_of : List HourlyRow → ℕ → ℕ
usage_of rows rule_id = sum_of billed (filter (λ h. h.rule_id == rule_id) rows)

unfoldable pub put_usage : List HourlyRow → JsMap ℕ ℕ → ℕ → JsMap ℕ ℕ
unfolding usage_of
put_usage rows out rule_id = Map.set out rule_id (usage_of rows rule_id)

unfoldable pub rule_usage_by_rule : Database → List ℕ → Text → JsMap ℕ ℕ
unfolding put_usage
rule_usage_by_rule db rule_ids since_iso =
    foldl
      (λ out part.
        let rows =
          filter (λ h. text_le (hour_floor_iso since_iso) h.hour_ts && has part h.rule_id)
            db.traffic_hourly in
        foldl (put_usage rows) out (distinct (map (λ (h : HourlyRow). h.rule_id) rows)))
      [] (chunk rule_ids 90)

pub record UserQuotaSummary : Type 0 where
  pub subscription : Option ActiveSubscription
  pub decision : QuotaDecision
  pub rules : List RuleQuotaStatus

unfoldable pub summary_usage : Database → List RelayRule → Option ActiveSubscription → JsMap ℕ ℕ
summary_usage db rules none = []
summary_usage db rules (some sub) =
    if leb sub.pkg.traffic_bytes 0
    then []
    else rule_usage_by_rule db (map (λ (r : RelayRule). r.id) rules) sub.subscription.activated_at

unfoldable pub user_quota_summary : Database → User → List RelayRule → Text → UserQuotaSummary
unfolding summary_usage
user_quota_summary db user rules now =
    let sub = Map.get (get_active_subscriptions db (user.id ∷ []) now) user.id in
    let used_by_rule = summary_usage db rules sub in
    record {
      subscription = sub;
      decision = quota_for_user db (some user) sub;
      rules =
          map
            (λ (rule : RelayRule). record {
              rule_id = rule.id;
              rule_name = rule.name;
              used_bytes = or_else (Map.get used_by_rule rule.id) 0;
            })
            rules;
    }
