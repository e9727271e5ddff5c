-- ===== src/Traffic/Authorization.antt =====
-- The billing gate of `ingestTraffic`: a node cannot touch the ledger of a rule that it does not
-- serve, whatever service names it reports.
use tyz.Prelude.{
  ℕ, ◌≡◌, refl, Bool, false, ◌&&◌, none, some, List, [], ◌∷◌, foldl, arith, Text, nat_eq, text_eq,
  if◌then◌else◌, ◌==◌, ==_iff, filter, any, All, or_else, Option-cases, Bool-cases, leb, inl, inr,
}
use tyz.Js.Map
use tyz.Js.Map.{JsMap, has, get-set, All-set, All-get, All-of_get-none, distinct}
use tyz.Entities.{RelayRule}
use tyz.Samples.{GostStatsSample}
use tyz.Db.{Database}
use tyz.Db.Statements.{chunk}
use tyz.Traffic.{
  Usage, HourBucket, Fold, bumped, bump, bill, ingest_sample, rule_id_of, is_rule_service,
  note_owner, billable_owners,
}

-- The rule row stands on a tunnel of the list.
abbrev pub is_on : List ℕ → RelayRule → Bool
is_on tunnels r = elim r.tunnel_id [ none ↦ false | some t ↦ has tunnels t ]

-- Some row with this id stands on a tunnel of the list.
abbrev pub is_served : Database → List ℕ → ℕ → Bool
is_served db tunnels id = any (λ r. r.id == id && is_on tunnels r) db.relay_rules

module _ (tunnels : List ℕ) (id : ℕ) where
  note_owners-none :
      (p : RelayRule → Bool) (rules : List RelayRule) (m : JsMap ℕ ℕ)
      → any (λ r. r.id == id && is_on tunnels r) rules ≡ false
      → Map.get m id ≡ none
      → Map.get (foldl (note_owner tunnels) m (filter p rules)) id ≡ none
  unfolding note_owner
  note_owners-none p [] m h e = e
  note_owners-none p (r ∷ rules) m h e = ground (
    arith,
    note_owners-none p rules m,
    note_owners-none p rules (note_owner tunnels m r),
    λ (t : ℕ). get-set m r.id id (or_else r.user_id 0),
  )

  -- So an unserved rule has no owner to bill.
  pub billable_owners-none :
      (db : Database) (ids : List ℕ)
      → is_served db tunnels id ≡ false
      → Map.get (billable_owners db tunnels ids) id ≡ none
  unfolding billable_owners Map.get
  billable_owners-none db ids h = parts (chunk ids 90) [] refl
    where
      parts :
          (l : List (List ℕ)) (m : JsMap ℕ ℕ)
          → Map.get m id ≡ none
          → Map.get
              (foldl
                (λ owner_of part.
                  foldl (note_owner tunnels) owner_of (filter (λ r. has part r.id) db.relay_rules))
                m
                l)
              id
            ≡ none
      parts [] m e = e
      parts (part ∷ l) m e = parts l _ (note_owners-none (λ r. has part r.id) db.relay_rules m h e)

-- Every bucket stands under its rule's id.
abbrev pub IsKeyed : JsMap ℕ HourBucket → Type 0
IsKeyed buckets = All (λ e. e.1.rule_id ≡ e.0) buckets

get-bump :
    (rule_id owner : ℕ) (hour_ts : Text) (d : Usage) (buckets : JsMap ℕ HourBucket) (id : ℕ)
    → Map.get (bump rule_id owner hour_ts d buckets) id ≡ (
        if rule_id == id
        then some (bumped rule_id owner hour_ts d (Map.get buckets rule_id))
        else Map.get buckets id)
unfolding bump
get-bump rule_id owner hour_ts d buckets id = get-set buckets rule_id id _

bump-IsKeyed :
    (rule_id owner : ℕ) (hour_ts : Text) (d : Usage) (buckets : JsMap ℕ HourBucket)
    → IsKeyed buckets
    → IsKeyed (bump rule_id owner hour_ts d buckets)
unfolding bump
bump-IsKeyed rule_id owner hour_ts d buckets h =
    All-set (λ e. e.1.rule_id ≡ e.0) buckets rule_id _ h
      (elim (Option-cases (Map.get buckets rule_id)) [
        | inl new ↦ rw (new, bumped)
        | inr (b, old) ↦ rw (old, bumped) (All-get (λ e. e.1.rule_id ≡ e.0) buckets rule_id h old)
      ])

module _ (owner_of : JsMap ℕ ℕ) (hour_ts : Text) where
  -- The gate, as a rule: a sample bills nothing, or a rule with an owner to bill.
  pub bill_cases {ℓ} :
      (P : JsMap ℕ HourBucket → Type ℓ) (service : Text) (d : Usage) (buckets : JsMap ℕ HourBucket)
      → P buckets
      → ((owner : ℕ)
          → Map.get owner_of (rule_id_of service) ≡ some owner
          → P (bump (rule_id_of service) owner hour_ts d buckets))
      → P (bill owner_of hour_ts service d buckets)
  unfolding bill
  bill_cases P service d buckets keep billed = elim (Bool-cases (is_rule_service service)) [
    | inr foreign ↦ rw foreign keep
    | inl rule ↦ elim (Bool-cases (leb d.upload 0 && leb d.download 0)) [
      | inl idle ↦ rw (rule, idle) keep
      | inr busy ↦ elim (Option-cases (Map.get owner_of (rule_id_of service))) [
        | inl unowned ↦ rw (rule, busy, unowned) keep
        | inr (owner, owned) ↦ rw (rule, busy, owned) (billed owner owned)
      ]
    ]
  ]

  bill-none :
      (id : ℕ) (service : Text) (d : Usage) (buckets : JsMap ℕ HourBucket)
      → Map.get owner_of id ≡ none
      → Map.get buckets id ≡ none
      → Map.get (bill owner_of hour_ts service d buckets) id ≡ none
  bill-none id service d buckets o h =
      bill_cases (λ m. Map.get m id ≡ none) service d buckets h
        λ owner owned. ground (
          arith,
          get-bump (rule_id_of service) owner hour_ts d buckets id,
          ==_iff (rule_id_of service) id,
        )

  bill-IsKeyed :
      (service : Text) (d : Usage) (buckets : JsMap ℕ HourBucket)
      → IsKeyed buckets
      → IsKeyed (bill owner_of hour_ts service d buckets)
  bill-IsKeyed service d buckets h =
      bill_cases IsKeyed service d buckets h
        λ owner _. bump-IsKeyed (rule_id_of service) owner hour_ts d buckets h

  pub fold-none :
      (id : ℕ) (samples : List GostStatsSample) (st : Fold)
      → Map.get owner_of id ≡ none
      → Map.get st.buckets id ≡ none
      → Map.get (foldl (ingest_sample owner_of hour_ts) st samples).buckets id ≡ none
  unfolding ingest_sample
  fold-none id [] st o h = h
  fold-none id (s ∷ samples) st o h =
      fold-none id samples (ingest_sample owner_of hour_ts st s) o
        (bill-none id s.service _ st.buckets o h)

  pub fold-IsKeyed :
      (samples : List GostStatsSample) (st : Fold)
      → IsKeyed st.buckets
      → IsKeyed (foldl (ingest_sample owner_of hour_ts) st samples).buckets
  unfolding ingest_sample
  fold-IsKeyed [] st h = h
  fold-IsKeyed (s ∷ samples) st h =
      fold-IsKeyed samples (ingest_sample owner_of hour_ts st s)
        (bill-IsKeyed s.service _ st.buckets h)
