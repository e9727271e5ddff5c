-- ===== src/Admin/Addressed.antt =====
-- apps/server/src/routes/admin.ts: a rule that names an endpoint forwards to the endpoint's address,
-- whatever the panel's handlers of rules and endpoints do.
use tyz.Prelude.{
  ℕ, ◌≤◌, ◌≡◌, refl, ◌∙◌, Bool, false, not, Option, some, List, [], ◌∷◌, ◌++◌, Text, map, filter,
  find?, arith, ◌==◌, ==_iff, nat_eq, text_eq, Bool-cases, Option-cases, inl, inr, All, All-append,
  All-map, All-and, All-imp, All-filter_of, or_else, All-filter-none,
}
use tyz.Entities.{Endpoint, RelayRule}
use tyz.Db.{Database}
use tyz.Db.Counting.{count, count-append, count-map, count-filter-le, All-found}
use tyz.Db.Finding.{find-filter, find-append}
use tyz.Realm.{endpoint_address}
use tyz.Admin.{patched}
use tyz.Admin.Endpoints.{get_endpoint, references}
use tyz.Admin.Rules.{
  CreateRuleInput, UpdateRuleInput, get_rule, resolve_endpoint, created_rule, patched_rule,
  update_rule_row, zeroed,
}
use tyz.Admin.RuleOutcomes.{Agrees, with_rules}

-- The rule's targets are the address of the endpoint that it names.
abbrev pub IsOnTarget : List Endpoint → RelayRule → Type 0
IsOnTarget endpoints r =
    (id : ℕ)
    → r.endpoint_id ≡ some id
    → (e : Endpoint) × (find? (λ (e : Endpoint). e.id == id) endpoints ≡ some e)
      × (r.targets ≡ endpoint_address e.host e.port)

pub record IsAddressed (db : Database) : Type 0 where
  pub keyed : (id : ℕ) → count (λ (r : RelayRule). r.id == id) db.relay_rules ≤ 1
  pub on_target : All (IsOnTarget db.endpoints) db.relay_rules

-- Only the two tables count.
pub agreeing : {a b : Database} → Agrees a b → IsAddressed b → IsAddressed a
agreeing {a} {b} e h = record {
  keyed = λ id. rw (e.1) (h.keyed id);
  on_target = rw (e.0, e.1) h.on_target;
}

resolve_endpoint-inr :
    (db : Database) (endpoint_id : Option ℕ) (address : Option Text) (manual : Text) (id : ℕ)
    → resolve_endpoint db endpoint_id ≡ inr address
    → endpoint_id ≡ some id
    → (e : Endpoint) × (get_endpoint db id ≡ some e)
      × (or_else address manual ≡ endpoint_address e.host e.port)
resolve_endpoint-inr db endpoint_id address manual id h named =
    elim (Option-cases (get_endpoint db id)) [
      | inl missing ↦ absurd (ground (arith, h, named, missing))
      | inr (e, found) ↦ (e, found, ground (arith, h, named, found))
    ]

pub created-IsAddressed :
    (input : CreateRuleInput) (address : Option Text) (id : ℕ) (now : Text) (db : Database)
    → resolve_endpoint db input.endpoint_id ≡ inr address
    → count (λ (r : RelayRule). r.id == id) db.relay_rules ≡ 0
    → IsAddressed db
    → IsAddressed (
        with_rules db
          (db.relay_rules ++ created_rule input (or_else address input.targets) id now ∷ []))
unfolding created_rule
created-IsAddressed input address id now db resolved fresh h =
    let row = created_rule input (or_else address input.targets) id now ∷ [] in
    record {
      keyed = λ key.
          rw (count-append (λ (r : RelayRule). r.id == key) db.relay_rules row)
            (ground (arith, h.keyed key, fresh, ==_iff id key));
      on_target = All-append (IsOnTarget db.endpoints) db.relay_rules row h.on_target (
        λ key named.
            resolve_endpoint-inr db input.endpoint_id address input.targets key resolved named,
        tt,
      );
    }

pub updated-IsAddressed :
    (id : ℕ) (input : UpdateRuleInput) (address : Option Text) (now : Text) (db : Database)
    (existing : RelayRule)
    → get_rule db id ≡ some existing
    → resolve_endpoint db (patched input.endpoint_id existing.endpoint_id) ≡ inr address
    → IsAddressed db
    → IsAddressed (with_rules db (map (update_rule_row id input address now) db.relay_rules))
unfolding patched_rule
updated-IsAddressed id input address now db existing found resolved h = record {
  keyed = λ key.
      rw
        (count-map (λ (r : RelayRule). r.id == key) (update_rule_row id input address now)
          (λ r. ground arith) db.relay_rules)
        (h.keyed key);
  on_target =
      All-map (IsOnTarget db.endpoints) (update_rule_row id input address now) db.relay_rules (
        All-imp _ _
          (λ r both. elim (Bool-cases (r.id == id)) [
            | inr other ↦ rw other both.0
            | inl here ↦
                rw (here, both.1 here)
                  (λ key named.
                    resolve_endpoint-inr db (patched input.endpoint_id existing.endpoint_id) address
                      (patched input.targets existing.targets) key resolved named)
          ])
          db.relay_rules
          (All-and (IsOnTarget db.endpoints) _ db.relay_rules h.on_target (
            All-found (λ (r : RelayRule). r.id == id) db.relay_rules existing found (h.keyed id))));
}

pub deleted-IsAddressed :
    (id : ℕ) (db : Database)
    → IsAddressed db
    → IsAddressed (with_rules db (filter (λ (r : RelayRule). not (r.id == id)) db.relay_rules))
deleted-IsAddressed id db h =
    let keep : RelayRule → Bool = λ r. not (r.id == id) in
    record {
      keyed = λ key. omega (
        arith,
        h.keyed key,
        count-filter-le (λ (r : RelayRule). r.id == key) keep db.relay_rules,
      );
      on_target = All-filter_of (IsOnTarget db.endpoints) keep db.relay_rules h.on_target;
    }

pub zeroed-IsAddressed :
    (id : ℕ) (now : Text) (db : Database)
    → IsAddressed db
    → IsAddressed (with_rules db (map (zeroed id now) db.relay_rules))
zeroed-IsAddressed id now db h = record {
  keyed = λ key.
      rw
        (count-map (λ (r : RelayRule). r.id == key) (zeroed id now) (λ r. ground arith)
          db.relay_rules)
        (h.keyed key);
  on_target = All-map (IsOnTarget db.endpoints) (zeroed id now) db.relay_rules (
      All-imp _ _
        (λ r on. elim (Bool-cases (r.id == id)) [ inl here ↦ rw here on | inr other ↦ rw other on ])
        db.relay_rules h.on_target);
}

-- A new endpoint behind the others changes no address.
pub inserted-IsAddressed :
    (row : Endpoint) (db : Database)
    → IsAddressed db
    → IsAddressed (record db { endpoints = db.endpoints ++ row ∷ [] })
inserted-IsAddressed row db h = record {
  keyed = h.keyed;
  on_target =
      All-imp (IsOnTarget db.endpoints) (IsOnTarget (db.endpoints ++ row ∷ []))
        (λ r on key named.
          let (e, found, same) = on key named in
          (e, find-append (λ (e : Endpoint). e.id == key) db.endpoints row ∙ rw found refl, same))
        db.relay_rules h.on_target;
}

pub removed-IsAddressed :
    (id : ℕ) (db : Database)
    → filter (references id) db.relay_rules ≡ []
    → IsAddressed db
    → IsAddressed
        (record db { endpoints = filter (λ (e : Endpoint). not (e.id == id)) db.endpoints })
removed-IsAddressed id db unused h = record {
  keyed = h.keyed;
  on_target =
      All-imp _ _
        (λ r both key named.
          let (e, found, same) = both.0 key named in
          let other : (key == id) ≡ false = rw (← both.1, named) refl in
          let kept =
            find-filter (λ (e : Endpoint). e.id == key) (λ e. not (e.id == id))
              (λ e k. rw ((==_iff e.id key).0 k, other) refl) db.endpoints in
          (e, kept ∙ found, same))
        db.relay_rules
        (All-and (IsOnTarget db.endpoints) (λ r. references id r ≡ false) db.relay_rules h.on_target
          (All-filter-none (references id) db.relay_rules unused));
}
