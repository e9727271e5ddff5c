-- ===== src/Quota/Sweep.antt =====
-- `quotaSweepStoppedUsers`: whose rules a flush of statistics takes out of the configs.
use tyz.Prelude.{
  ℕ, ◌≡◌, refl, ap, ◌∙◌, Bool, true, false, ◌||◌, ◌&&◌, List, [], ◌∷◌, ◌++◌, foldl, Text, arith,
  ==_iff, nat_eq, any, filter, Option-cases, inl, inr,
}
use mathlib.Core.List.{flatten}
use tyz.Js.Map.{has, has-add, has-append, has-filter}
use tyz.Entities.{RelayRule}
use tyz.Db.{Database, NodeConfigRow}
use tyz.Db.Statements.{chunk, flatten-chunk}
use tyz.Quota.{
  quota_decisions_for_users, is_owned_by, note_user, reported_owners, is_stopped, is_deployed,
  note_deployed, is_of_users, quota_sweep_stopped_users,
}
use tyz.Quota.Decisions.{decision_of, decisions-batch}

module _ (u : ℕ) where
  has-note_user :
      (owners : List ℕ) (r : RelayRule)
      → has (note_user owners r) u ≡ (has owners u || is_owned_by u r)
  unfolding note_user is_owned_by
  has-note_user owners r = elim (Option-cases r.user_id) [
    | inl e ↦ ground arith
    | inr (w, e) ↦ ground (arith, has-add owners w u)
  ]

  has-note_users :
      (p : RelayRule → Bool) (rules : List RelayRule) (owners : List ℕ)
      → has (foldl note_user owners (filter p rules)) u
        ≡ (has owners u || any (λ r. p r && is_owned_by u r) rules)
  has-note_users p [] owners = ground arith
  has-note_users p (r ∷ rules) owners = ground (
    arith,
    has-note_user owners r,
    has-note_users p rules owners,
    has-note_users p rules (note_user owners r),
  )

  any-has-append :
      (xs ys : List ℕ) (rules : List RelayRule)
      → any (λ r. has (xs ++ ys) r.id && is_owned_by u r) rules ≡ (
          any (λ r. has xs r.id && is_owned_by u r) rules
          || any (λ r. has ys r.id && is_owned_by u r) rules)
  any-has-append xs ys [] = refl
  any-has-append xs ys (r ∷ rules) =
      ground (arith, has-append xs ys r.id, any-has-append xs ys rules)

  has-note_deployed :
      (snapshots : List NodeConfigRow) (deployed : List ℕ) (r : RelayRule)
      → has (note_deployed snapshots deployed r) u
        ≡ (has deployed u || (is_owned_by u r && is_deployed snapshots r.id))
  unfolding note_deployed is_owned_by
  has-note_deployed snapshots deployed r = elim (Option-cases r.user_id) [
    | inl e ↦ ground arith
    | inr (w, e) ↦ ground (arith, has-add deployed w u, ==_iff w u)
  ]

  owner_is_of_users :
      (users : List ℕ) (r : RelayRule) → is_owned_by u r ≡ true → is_of_users users r ≡ has users u
  unfolding is_owned_by is_of_users
  owner_is_of_users users r h = elim (Option-cases r.user_id) [
    | inl e ↦ ground arith
    | inr (w, e) ↦ ground (arith, ==_iff w u)
  ]

  has-note_deployeds :
      (snapshots : List NodeConfigRow) (users : List ℕ) (rules : List RelayRule) (deployed : List ℕ)
      → has (foldl (note_deployed snapshots) deployed (filter (is_of_users users) rules)) u ≡ (
          has deployed u
          || (has users u && any (λ r. is_owned_by u r && is_deployed snapshots r.id) rules))
  has-note_deployeds snapshots users [] deployed = ground arith
  has-note_deployeds snapshots users (r ∷ rules) deployed = ground (
    arith,
    owner_is_of_users users r,
    has-note_deployed snapshots deployed r,
    has-note_deployeds snapshots users rules deployed,
    has-note_deployeds snapshots users rules (note_deployed snapshots deployed r),
  )

  has-parts :
      (rules : List RelayRule) (parts : List (List ℕ)) (owners : List ℕ)
      → has
          (foldl (λ acc part. foldl note_user acc (filter (λ r. has part r.id) rules)) owners parts)
          u
        ≡ (has owners u || any (λ r. has (flatten parts) r.id && is_owned_by u r) rules)
  unfolding flatten
  has-parts rules [] owners = ground (arith, none_of rules)
    where
      none_of : (l : List RelayRule) → any (λ r. false && is_owned_by u r) l ≡ false
      none_of [] = refl
      none_of (r ∷ l) = none_of l
  has-parts rules (part ∷ parts) owners =
      let step = foldl note_user owners (filter (λ r. has part r.id) rules) in
      has-parts rules parts step
      ∙ ground (
        arith,
        has-note_users (λ r. has part r.id) rules owners,
        any-has-append part (flatten parts) rules,
      )

  stopped-decision :
      (db : Database) (owners : List ℕ) (now : Text)
      → has owners u ≡ true
      → is_stopped (quota_decisions_for_users db owners now) u ≡ (decision_of db now u).stopped
  unfolding is_stopped
  stopped-decision db owners now h = rw (decisions-batch owners u h db now, is_stopped)

  -- The owners of the rules that reported, whatever the chunks.
  has-reported_owners :
      (db : Database) (ids : List ℕ)
      → has (reported_owners db ids) u ≡ any (λ r. has ids r.id && is_owned_by u r) db.relay_rules
  unfolding reported_owners
  has-reported_owners db ids =
      has-parts db.relay_rules (chunk ids 90) []
      ∙ ap (λ l. any (λ r. has l r.id && is_owned_by u r) db.relay_rules) (flatten-chunk ids 89)

  -- The three tests of the code that a returned user passes: the owner of a rule that reported, a
  -- decision that stops, and a hit of the text search.
  pub has-quota_sweep_stopped_users :
      (db : Database) (ids : List ℕ) (now : Text)
      → has (quota_sweep_stopped_users db ids now) u ≡ (
          any (λ r. has ids r.id && is_owned_by u r) db.relay_rules
          && (decision_of db now u).stopped
          && any (λ r. is_owned_by u r && is_deployed db.node_configs r.id) db.relay_rules)
  unfolding quota_sweep_stopped_users
  has-quota_sweep_stopped_users db ids now =
      let owners = reported_owners db ids in
      let decisions = quota_decisions_for_users db owners now in
      ground (
        arith,
        has-note_deployeds db.node_configs (filter (is_stopped decisions) owners) db.relay_rules [],
        has-filter (is_stopped decisions) owners u,
        has-reported_owners db ids,
        stopped-decision db owners now,
      )
