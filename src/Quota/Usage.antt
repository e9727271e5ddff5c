-- ===== src/Quota/Usage.antt =====
-- What a metered package has left, in terms of the ledger.
use tyz.Prelude.{
  ℕ, ◌+◌, ◌-◌, ◌<◌, ◌≡◌, refl, ap, ◌↔◌, Bool, false, ◌&&◌, none, some, List, [], ◌∷◌, ◌++◌, Text,
  arith, ◌==◌, nat_eq, any, filter, sum_of, take, map, Bool-cases, inl, inr,
}
use tyz.Js.Map.{has}
use tyz.Js.Text.{codes, text_le}
use tyz.Js.Text.Decimal.{show}
use tyz.Entities.{RelayRule, RuleQuota, User, active}
use tyz.Db.{Database, HourlyRow}
use tyz.Traffic.{hour_floor_iso}
use tyz.Quota.{ActiveSubscription, is_owned_by, user_usage_bytes, quota_for_user, billed}

-- The rows of the ledger from the hour of an instant on, of a rule that is now the user's.
abbrev pub is_charged : Database → ℕ → Text → HourlyRow → Bool
is_charged db user_id since h =
    text_le (take 13 since ++ codes ":00:00.000Z") h.hour_ts
    && any
        (λ (r : RelayRule).
          elim r.user_id [ none ↦ false | some u ↦ u == user_id ] && r.id == h.rule_id)
        db.relay_rules

has-owned :
    (user_id rule_id : ℕ) (rules : List RelayRule)
    → has (map (λ (r : RelayRule). r.id) (filter (is_owned_by user_id) rules)) rule_id
      ≡ any
          (λ (r : RelayRule).
            elim r.user_id [ none ↦ false | some u ↦ u == user_id ] && r.id == rule_id)
          rules
unfolding is_owned_by
has-owned user_id rule_id [] = refl
has-owned user_id rule_id (r ∷ rules) = elim (Bool-cases (is_owned_by user_id r)) [
  | inl mine ↦ rw mine (rw (has-owned user_id rule_id rules) refl)
  | inr other ↦ rw other (has-owned user_id rule_id rules)
]

sum-filter :
    (p q : HourlyRow → Bool)
    → ((h : HourlyRow) → p h ≡ q h)
    → (rows : List HourlyRow)
    → sum_of billed (filter p rows)
      ≡ sum_of (λ (h : HourlyRow). h.billed_upload) (filter q rows)
        + sum_of (λ (h : HourlyRow). h.billed_download) (filter q rows)
sum-filter p q same [] = omega arith
sum-filter p q same (h ∷ rows) = elim (Bool-cases (q h)) [
  | inl hit ↦ rw (same h, hit) (omega (arith, sum-filter p q same rows))
  | inr miss ↦ rw (same h, miss) (omega (arith, sum-filter p q same rows))
]

user_usage_bytes-charged :
    (db : Database) (user_id : ℕ) (since : Text)
    → let rows = filter (is_charged db user_id since) db.traffic_hourly in
      user_usage_bytes db user_id since
      ≡ sum_of (λ (h : HourlyRow). h.billed_upload) rows
        + sum_of (λ (h : HourlyRow). h.billed_download) rows
unfolding user_usage_bytes hour_floor_iso
user_usage_bytes-charged db user_id since =
    sum-filter _ (is_charged db user_id since)
      (λ h.
        ap (λ b. text_le (take 13 since ++ codes ":00:00.000Z") h.hour_ts && b)
          (has-owned user_id h.rule_id db.relay_rules))
      db.traffic_hourly

-- A user with a subscription is given an allowance of so many bytes exactly when he is active, the
-- subscription has not run out, its package is metered, and the bytes are what the charged uploads
-- and downloads, in the ledger since the hour of the activation, of the rules that are now his leave
-- of the package, which is more than nothing.
pub quota_exact :
    (db : Database) (user : User) (sub : ActiveSubscription) (n : ℕ)
    → let rows = filter (is_charged db user.id sub.subscription.activated_at) db.traffic_hourly in
      ((q : RuleQuota) × ((quota_for_user db (some user) (some sub)).quota ≡ some q)
        × (q.limit_bytes ≡ n))
      ↔ ((user.status ≡ active)
          × (sub.expired ≡ false)
          × (0 < sub.pkg.traffic_bytes)
          × (n
                + sum_of (λ (h : HourlyRow). h.billed_upload) rows
                + sum_of (λ (h : HourlyRow). h.billed_download) rows
              ≡ sub.pkg.traffic_bytes)
          × (0 < n))
unfolding quota_for_user
quota_exact db user sub n =
    let used = user_usage_bytes-charged db user.id sub.subscription.activated_at in
    let left = sub.pkg.traffic_bytes - user_usage_bytes db user.id sub.subscription.activated_at in
    let whole : RuleQuota = record {
      name = codes "quota-user-" ++ show user.id;
      limit_bytes = left;
      starts_at = sub.subscription.activated_at;
      expires_at = sub.subscription.expires_at;
    } in
    (
      λ h. ground (arith, h.1, h.2, used),
      λ h. (whole, ground (arith, h.0, h.1, h.2, h.3, h.4, used), omega (arith, h.3, used)),
    )
