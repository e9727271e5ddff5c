-- ===== src/Tests/QuotaRuns.antt =====
-- Quota decisions on user 9, who has a plan of 1000 bytes.
use tyz.Prelude.{
  ◌+◌, filter, sum_of, ◌<◌, ◌≡◌, ◌↔◌, refl, false, true, some, none, [], ◌∷◌, All, nat_eq,
}
use tyz.Js.Map
use tyz.Js.Map.{has}
use tyz.Js.Text.{codes}
use tyz.Entities.{active, RuleQuota, RelayRule}
use tyz.Quota.{
  ActiveSubscription, quota_for_user, quota_decisions_for_users, keep_gated, apply_rule_quotas,
  quota_sweep_stopped_users,
}
use tyz.Quota.Decisions.{MustStop, Stopped, Stopped-iff, decision_of, decisions-batch}
use tyz.Quota.Gate.{
  serve_rule, IsAllowed, apply_rule_quotas-serve_rule, apply_rule_quotas-IsAllowed,
}
use tyz.Quota.Deployed.{Any, IsNamed, quota_sweep_exact}
use tyz.Db.{Database, NodeConfigRow, HourlyRow}
use tyz.Quota.Usage.{is_charged, quota_exact}
use tyz.Tests.Fixtures.{time, db, owner, rule, plan, plan_of_owner}

abbrev subscription : ActiveSubscription
subscription = record { subscription = plan_of_owner; pkg = plan; expired = false }

Stopped-iff_example :
    Stopped (quota_for_user db (some owner.entity) (some subscription))
    ↔ MustStop db (some owner.entity) (some subscription)
Stopped-iff_example = Stopped-iff db (some owner.entity) (some subscription)

-- The owner has used 70 bytes of his plan.
abbrev spent : Database
spent = record db {
  traffic_hourly =
      record {
        rule_id = 100;
        user_id = 9;
        node_id = 1;
        hour_ts = codes "2026-08-16T05:00:00.000Z";
        real_upload = 30;
        real_download = 40;
        billed_upload = 30;
        billed_download = 40;
      }
      ∷ [];
}

quota_exact_example :
    let rows =
      filter
        (is_charged spent owner.entity.id subscription.subscription.activated_at)
        spent.traffic_hourly in
    ((q : RuleQuota) × ((quota_for_user spent (some owner.entity) (some subscription)).quota
        ≡ some q)
      × (q.limit_bytes ≡ 930))
    ↔ ((active ≡ active)
        × (false ≡ false)
        × (0 < 1000)
        × (930
              + sum_of (λ (h : HourlyRow). h.billed_upload) rows
              + sum_of (λ (h : HourlyRow). h.billed_download) rows
            ≡ 1000)
        × (0 < 930))
quota_exact_example = quota_exact spent owner.entity subscription 930

decisions-batch_example :
    Map.get (quota_decisions_for_users db (4 ∷ 9 ∷ []) time) 9 ≡ some (decision_of db time 9)
decisions-batch_example = decisions-batch (4 ∷ 9 ∷ []) 9 refl db time

apply_rule_quotas-serve_rule_example :
    apply_rule_quotas db (rule 100 10 (some 9) ∷ rule 7 11 none ∷ []) time
    ≡ keep_gated (serve_rule db time) (rule 100 10 (some 9) ∷ rule 7 11 none ∷ [])
apply_rule_quotas-serve_rule_example =
    apply_rule_quotas-serve_rule db (rule 100 10 (some 9) ∷ rule 7 11 none ∷ []) time

apply_rule_quotas-IsAllowed_example :
    All (IsAllowed db time) (apply_rule_quotas db (rule 100 10 (some 9) ∷ rule 7 11 none ∷ []) time)
apply_rule_quotas-IsAllowed_example =
    apply_rule_quotas-IsAllowed db (rule 100 10 (some 9) ∷ rule 7 11 none ∷ []) time

quota_sweep_exact_example : (has (quota_sweep_stopped_users db (100 ∷ []) time) 9 ≡ true) ↔ (
    Any (λ (r : RelayRule). (has (100 ∷ []) r.id ≡ true) × (r.user_id ≡ some 9)) db.relay_rules
    × Stopped (decision_of db time 9)
    × Any
        (λ (r : RelayRule).
          (r.user_id ≡ some 9)
          × Any (λ (s : NodeConfigRow). IsNamed r.id s.config_json) db.node_configs)
        db.relay_rules)
quota_sweep_exact_example = quota_sweep_exact 9 db (100 ∷ []) time
