-- ===== src/Admin/Limits.antt =====
-- apps/server/src/routes/admin.ts: what the check of a rule's ownership lets through, and what it
-- bounds.
use tyz.Admin.Rules.{CreateRuleInput, created_rule, insert_rule, create_rule, resolve_endpoint}
use tyz.Admin.{record_audit, answered}
use tyz.Db.Counting.{bit, count-append}
use tyz.Admin.Shape.{get_tunnel}
use tyz.Js.Map.{has, distinct, has-distinct}
use tyz.Prelude.{
  ℕ, ◌+◌, ◌≤◌, ◌≡◌, refl, Option, none, some, [], ◌∷◌, Text, arith, nat_eq, ◌↔◌, ◌⊎◌, inl, inr,
  Bool-cases, Option-cases, ==-refl, Sum-cases, or_else,
}
use tyz.Js.Map
use tyz.Quota.Subscriptions.{get_active_subscriptions-IsCurrent}
use tyz.Entities.{RelayRule}
use tyz.Db.{Database}
use tyz.Quota.{get_active_subscriptions, is_active, is_owned_by}
use tyz.Admin.Ownership.{get_user, owned_count, subscription_problem, validate_rule_ownership}
use tyz.Admin.Allowances.{
  IsAllowed, counts, owned_count-counts, is_active-active, expired-IsRunning,
  subscription_problem-none,
}

-- The check passes exactly for an active user with a subscription that has not run out, whose
-- package grants the tunnel and the node of each of its links, and has room for one more rule than
-- those that the user owns besides the one being changed.
pub validate_rule_ownership-IsAllowed :
    (db : Database) (user_id : ℕ) (tunnel_id exclude : Option ℕ) (now : Text)
    → (validate_rule_ownership db user_id tunnel_id exclude now ≡ none)
      ↔ IsAllowed db user_id tunnel_id exclude now
unfolding validate_rule_ownership
validate_rule_ownership-IsAllowed db user_id tunnel_id exclude now =
    let found = Map.get (get_active_subscriptions db (user_id ∷ []) now) user_id in
    (
      λ h. elim (Option-cases (get_user db user_id)) [
        | inl missing ↦ absurd (ground (arith, h, missing))
        | inr (user, user_found) ↦ elim (Bool-cases (is_active user.status)) [
          | inr inactive ↦ absurd (ground (arith, h, user_found, inactive))
          | inl enabled ↦ elim (Option-cases found) [
            | inl no_sub ↦ absurd (ground (arith, h, user_found, enabled, no_sub))
            | inr (sub, sub_found) ↦
                let rest : subscription_problem db sub user_id tunnel_id exclude ≡ none =
                  rw (← h, validate_rule_ownership, user_found, enabled, sub_found) refl in
                let ok = (subscription_problem-none db sub user_id tunnel_id exclude).0 rest in
                record {
                  user = user;
                  user_found = user_found;
                  user_active = (is_active-active user.status).0 enabled;
                  sub = sub;
                  sub_found = sub_found;
                  sub_running = (expired-IsRunning db user_id now sub sub_found).0 ok.0;
                  sub_owner =
                      (get_active_subscriptions-IsCurrent db (user_id ∷ []) now user_id sub
                        sub_found).0;
                  sub_package =
                      (get_active_subscriptions-IsCurrent db (user_id ∷ []) now user_id sub
                        sub_found).1;
                  granted = ok.1;
                  room = ok.2;
                }
          ]
        ]
      ],
      λ a.
          rw
            (
              validate_rule_ownership,
              a.user_found,
              (is_active-active a.user.status).1 a.user_active,
              a.sub_found,
            )
            ((subscription_problem-none db a.sub user_id tunnel_id exclude).1 (
              (expired-IsRunning db user_id now a.sub a.sub_found).1 a.sub_running,
              a.granted,
              a.room,
            )),
    )

inserted_count :
    (input : CreateRuleInput) (targets : Text) (id : ℕ) (actor now : Text) (db : Database) (u : ℕ)
    → input.user_id ≡ some u
    → owned_count (insert_rule input targets id actor now db).db u none ≡ owned_count db u none + 1
unfolding insert_rule created_rule record_audit is_owned_by
inserted_count input targets id actor now db u owner =
    let row = created_rule input targets id now ∷ [] in
    let owned : bit (counts u none (created_rule input targets id now)) ≡ 1 =
      rw (owner, ==-refl u) refl in
    omega (
      arith,
      owned_count-counts db u none,
      owned_count-counts (insert_rule input targets id actor now db).db u none,
      count-append (counts u none) db.relay_rules row,
      owned,
    )

-- A rule is created for a tenant only where the package allows it, and then the tenant owns no more
-- rules than the package's limit, if it has one.
pub create_rule-limit :
    (input : CreateRuleInput) (id : ℕ) (actor now : Text) (db : Database) (u : ℕ) (rule : RelayRule)
    → input.user_id ≡ some u
    → (create_rule (some input) id actor now db).answer ≡ answered rule
    → (allowed : IsAllowed db u (some input.tunnel_id) none now) × ((allowed.sub.pkg.max_rules ≡ 0)
        ⊎ (owned_count (create_rule (some input) id actor now db).db u none
            ≤ allowed.sub.pkg.max_rules))
unfolding create_rule
create_rule-limit input id actor now db u rule owner done =
    elim (Option-cases (get_tunnel db input.tunnel_id)) [
      | inl missing ↦ absurd (ground (arith, done, missing))
      | inr (tunnel, there) ↦
          let check = validate_rule_ownership db u (some input.tunnel_id) none now in
          elim (Option-cases check) [
            | inr (problem, bad) ↦ absurd (ground (arith, done, there, owner, bad))
            | inl fine ↦
                let allowed =
                  (validate_rule_ownership-IsAllowed db u (some input.tunnel_id) none now).0 fine in
                elim (Sum-cases (resolve_endpoint db input.endpoint_id)) [
                  | inl (lost, gone) ↦ absurd (ground (arith, done, there, owner, fine, gone))
                  | inr (address, found) ↦
                      let grown =
                        inserted_count input (or_else address input.targets) id actor now db u
                          owner in
                      (
                        allowed,
                        elim allowed.room [
                          | inl unlimited ↦ inl unlimited
                          | inr room ↦ inr (
                              rw (create_rule, there, owner, fine, found)
                                (omega (arith, grown, room, owned_count-counts db u none)))
                        ],
                      )
                ]
          ]
    ]
