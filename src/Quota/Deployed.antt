-- ===== src/Quota/Deployed.antt =====
-- `quotaSweepStoppedUsers`: the answer in terms of the rows and of the text of the configs.
use tyz.Prelude.{
  ℕ, ◌≡◌, ◌↔◌, ◌⊎◌, inl, inr, Bool, true, false, ◌&&◌, some, List, [], ◌∷◌, ◌++◌, Text, arith,
  ==_iff, nat_eq, any, Bool-cases, Option-cases,
}
use tyz.Js.Map.{has}
use tyz.Js.Text.{codes}
use tyz.Js.Text.Includes.{includes_iff}
use tyz.Js.Text.Decimal.{show}
use tyz.Entities.{RelayRule}
use tyz.Db.{Database, NodeConfigRow}
use tyz.Quota.{is_owned_by, is_deployed, needle, quota_sweep_stopped_users}
use tyz.Quota.Decisions.{decision_of, Stopped}
use tyz.Quota.Sweep.{has-quota_sweep_stopped_users}

-- Some member.
abbrev pub Any {ℓ} : {A : Type ℓ} → (A → Type 0) → List A → Type 0
Any P [] = ⊥
Any P (x ∷ xs) = P x ⊎ Any P xs

any_iff {ℓ} :
    {A : Type ℓ} (p : A → Bool) (P : A → Type 0)
    → ((x : A) → (p x ≡ true) ↔ P x)
    → (xs : List A) → (any p xs ≡ true) ↔ Any P xs
any_iff p P same [] = (λ h. absurd (ground (arith, h)), λ h. absurd h)
any_iff p P same (x ∷ xs) =
    let rest = any_iff p P same xs in
    (
      λ h. elim (Bool-cases (p x)) [
        | inl here ↦ inl ((same x).0 here)
        | inr other ↦ inr (rest.0 (ground (arith, h, other)))
      ],
      λ h. elim h [
        | inl here ↦ ground (arith, (same x).1 here)
        | inr later ↦ ground (arith, rest.1 later)
      ],
    )

-- The service of the rule stands in the text of the config: its whole name, as a member `name` of
-- compact JSON.
abbrev pub IsNamed : ℕ → Text → Type 0
IsNamed rule_id config_json =
    (before : Text) × (after : Text) × (config_json
      ≡ before ++ (codes "\"name\":\"service-" ++ show rule_id ++ codes "\"") ++ after)

is_owned_by_iff : (u : ℕ) (r : RelayRule) → (is_owned_by u r ≡ true) ↔ (r.user_id ≡ some u)
unfolding is_owned_by
is_owned_by_iff u r = elim (Option-cases r.user_id) [
  | inl e ↦ ground (arith, e)
  | inr (w, e) ↦ ground (arith, e, ==_iff w u)
]

is_deployed_iff :
    (snapshots : List NodeConfigRow) (rule_id : ℕ)
    → (is_deployed snapshots rule_id ≡ true)
      ↔ Any (λ (s : NodeConfigRow). IsNamed rule_id s.config_json) snapshots
unfolding is_deployed needle
is_deployed_iff snapshots rule_id = any_iff _ _ (λ s. includes_iff s.config_json _) snapshots

and_iff : (a b : Bool) → ((a && b) ≡ true) ↔ ((a ≡ true) × (b ≡ true))
and_iff true b = ground arith
and_iff false b = ground arith

both : {A B C D : Type 0} → A ↔ B → C ↔ D → (A × C) ↔ (B × D)
both f g = (λ p. (f.0 p.0, g.0 p.1), λ p. (f.1 p.0, g.1 p.1))

regroup : {A B C : Type 0} → ((A × B) × C) ↔ (A × B × C)
regroup = (λ p. (p.0.0, p.0.1, p.1), λ p. ((p.0, p.1), p.2))

then {ℓ} : {A B C : Type ℓ} → A ↔ B → B ↔ C → A ↔ C
then f g = (λ a. g.0 (f.0 a), λ c. f.1 (g.1 c))

-- The sweep returns exactly the users who own a rule that reported, are stopped now, and own a rule
-- whose service is named in the text of some node's stored config.
pub quota_sweep_exact :
    (u : ℕ) (db : Database) (ids : List ℕ) (now : Text)
    → (has (quota_sweep_stopped_users db ids now) u ≡ true) ↔ (
        Any (λ (r : RelayRule). (has ids r.id ≡ true) × (r.user_id ≡ some u)) db.relay_rules
        × Stopped (decision_of db now u)
        × Any
            (λ (r : RelayRule).
              (r.user_id ≡ some u)
              × Any (λ (s : NodeConfigRow). IsNamed r.id s.config_json) db.node_configs)
            db.relay_rules)
quota_sweep_exact u db ids now =
    let reported =
      any_iff _ (λ (r : RelayRule). (has ids r.id ≡ true) × (r.user_id ≡ some u))
        (λ r.
          then (and_iff (has ids r.id) (is_owned_by u r))
            (both (λ h. h, λ h. h) (is_owned_by_iff u r)))
        db.relay_rules in
    let deployed =
      any_iff _
        (λ (r : RelayRule).
          (r.user_id ≡ some u)
          × Any (λ (s : NodeConfigRow). IsNamed r.id s.config_json) db.node_configs)
        (λ r.
          then (and_iff (is_owned_by u r) (is_deployed db.node_configs r.id))
            (both (is_owned_by_iff u r) (is_deployed_iff db.node_configs r.id)))
        db.relay_rules in
    let stops : Stopped (decision_of db now u) ↔ Stopped (decision_of db now u) =
      (λ h. h, λ h. h) in
    rw (has-quota_sweep_stopped_users u db ids now) (
      then (and_iff _ _) (
        then (both (then (and_iff _ (decision_of db now u).stopped) (both reported stops)) deployed)
          regroup))
