-- ===== src/Health/Rules.antt =====
-- What a heartbeat may write to the rules.
use tyz.Prelude.{
  ℕ, ◌≡◌, refl, ◌∙◌, Bool, false, ◌&&◌, none, some, inl, inr, List, [], ◌∷◌, Text, foldl, map,
  filter, arith, ◌==◌, nat_eq, All, any, ==_iff, Option-cases,
}
use tyz.Js.Map
use tyz.Js.Map.{JsMap, All-set, has, get-set}
use tyz.Js.Text.Decimal.{number}
use tyz.Traffic.{service_digits, node_rule_tunnels}
use tyz.Entities.{RelayRule, RelayRuleStatus, paused}
use tyz.Samples.{ServiceHealthSample}
use tyz.Db.{Database}
use tyz.Db.Statements.{chunk}
use tyz.Traffic.Authorization.{is_on, is_served}
use tyz.Health.{
  status_of_state, note_status, status_beq, set_status, write_status, write_statuses, note_current,
  current_statuses, ingest_health_snapshot,
}

-- A status that a heartbeat derives is never `paused`.
abbrev IsDerived : ℕ × RelayRuleStatus → Type 0
IsDerived e = status_beq e.1 paused ≡ false

status_of_state-IsDerived :
    (rule_id : ℕ) (state : Text) (status : RelayRuleStatus)
    → status_of_state state ≡ some status
    → IsDerived (rule_id, status)
unfolding status_of_state
status_of_state-IsDerived rule_id state status e = ground arith

note_status-IsDerived :
    (statuses : JsMap ℕ RelayRuleStatus) (h : ServiceHealthSample)
    → All IsDerived statuses
    → All IsDerived (note_status statuses h)
unfolding note_status service_digits
note_status-IsDerived statuses h derived = elim (Option-cases (service_digits h.service)) [
  | inl e ↦ rw e derived
  | inr (digits, e) ↦ elim (Option-cases (status_of_state h.state)) [
    | inl f ↦ rw (e, f) derived
    | inr (status, f) ↦
        rw (e, f)
          (All-set IsDerived statuses (number digits) status derived
            (status_of_state-IsDerived (number digits) h.state status f))
  ]
]

note_statuses-IsDerived :
    (health : List ServiceHealthSample) (statuses : JsMap ℕ RelayRuleStatus)
    → All IsDerived statuses
    → All IsDerived (foldl note_status statuses health)
note_statuses-IsDerived [] statuses derived = derived
note_statuses-IsDerived (h ∷ health) statuses derived =
    note_statuses-IsDerived health (note_status statuses h)
      (note_status-IsDerived statuses h derived)

-- The rules that the operator has paused.
abbrev pub is_paused : RelayRule → Bool
is_paused r = status_beq r.status paused

set_status-paused :
    (rule_id : ℕ) (status : RelayRuleStatus) (reported_at : Text) (rules : List RelayRule)
    → status_beq status paused ≡ false
    → filter is_paused (map (set_status rule_id status reported_at) rules) ≡ filter is_paused rules
unfolding set_status
set_status-paused rule_id status reported_at [] h = refl
set_status-paused rule_id status reported_at (r ∷ rules) h =
    ground (arith, set_status-paused rule_id status reported_at rules h)

write_status-paused :
    (current : JsMap ℕ RelayRuleStatus) (reported_at : Text) (statuses : JsMap ℕ RelayRuleStatus)
    (rules : List RelayRule)
    → All IsDerived statuses
    → filter is_paused (foldl (write_status current reported_at) rules statuses)
      ≡ filter is_paused rules
unfolding write_status
write_status-paused current reported_at [] rules derived = refl
write_status-paused current reported_at ((rule_id, status) ∷ statuses) rules derived =
    write_status-paused current reported_at statuses
      (write_status current reported_at rules (rule_id, status)) derived.1
    ∙ ground (arith, set_status-paused rule_id status reported_at rules derived.0)

-- A heartbeat leaves the paused rules as they are, whole rows, and pauses none.
pub ingest_health_snapshot-paused :
    (db : Database) (node_id : ℕ) (health : List ServiceHealthSample) (reported_at : Text)
    → filter is_paused (ingest_health_snapshot db node_id health reported_at).relay_rules
      ≡ filter is_paused db.relay_rules
unfolding ingest_health_snapshot write_statuses
ingest_health_snapshot-paused db node_id health reported_at =
    write_status-paused _ reported_at (foldl note_status [] health) db.relay_rules
      (note_statuses-IsDerived health [] tt)

module _ (tunnels : List ℕ) (id : ℕ) where
  note_currents-none :
      (p : RelayRule → Bool) (rules : List RelayRule) (m : JsMap ℕ RelayRuleStatus)
      → any (λ r. r.id == id && is_on tunnels r) rules ≡ false
      → Map.get m id ≡ none
      → Map.get (foldl (note_current tunnels) m (filter p rules)) id ≡ none
  unfolding note_current
  note_currents-none p [] m h e = e
  note_currents-none p (r ∷ rules) m h e = ground (
    arith,
    note_currents-none p rules m,
    note_currents-none p rules (note_current tunnels m r),
    get-set m r.id id r.status,
  )

  -- A rule that stands on no tunnel of the node has no status to compare with.
  current_statuses-none :
      (db : Database) (ids : List ℕ)
      → is_served db tunnels id ≡ false
      → Map.get (current_statuses db tunnels ids) id ≡ none
  unfolding current_statuses Map.get
  current_statuses-none db ids h = parts (chunk ids 90) [] refl
    where
      parts :
          (l : List (List ℕ)) (m : JsMap ℕ RelayRuleStatus)
          → Map.get m id ≡ none
          → Map.get
              (foldl
                (λ current part.
                  foldl (note_current tunnels) current (filter (λ r. has part r.id) db.relay_rules))
                m
                l)
              id
            ≡ none
      parts [] m e = e
      parts (part ∷ l) m e =
          parts l (foldl (note_current tunnels) m (filter (λ r. has part r.id) db.relay_rules))
            (note_currents-none (λ r. has part r.id) db.relay_rules m h e)

module _ (id : ℕ) where
  set_status-other :
      (rule_id : ℕ) (status : RelayRuleStatus) (reported_at : Text) (rules : List RelayRule)
      → rule_id == id ≡ false
      → filter (λ r. r.id == id) (map (set_status rule_id status reported_at) rules)
        ≡ filter (λ r. r.id == id) rules
  unfolding set_status
  set_status-other rule_id status reported_at [] h = refl
  set_status-other rule_id status reported_at (r ∷ rules) h =
      ground (arith, set_status-other rule_id status reported_at rules h, ==_iff r.id rule_id)

  write_status-other :
      (current : JsMap ℕ RelayRuleStatus) (reported_at : Text) (statuses : JsMap ℕ RelayRuleStatus)
      (rules : List RelayRule)
      → Map.get current id ≡ none
      → filter (λ r. r.id == id) (foldl (write_status current reported_at) rules statuses)
        ≡ filter (λ r. r.id == id) rules
  unfolding write_status
  write_status-other current reported_at [] rules e = refl
  write_status-other current reported_at ((rule_id, status) ∷ statuses) rules e =
      write_status-other current reported_at statuses
        (write_status current reported_at rules (rule_id, status)) e
      ∙ ground (arith, set_status-other rule_id status reported_at rules, ==_iff rule_id id)

  -- Whatever service names a node reports, a rule that stands on no tunnel which the node serves
  -- keeps its row.
  pub ingest_health_snapshot-foreign :
      (db : Database) (node_id : ℕ) (health : List ServiceHealthSample) (reported_at : Text)
      → is_served db (node_rule_tunnels db node_id) id ≡ false
      → filter (λ r. r.id == id) (ingest_health_snapshot db node_id health reported_at).relay_rules
        ≡ filter (λ r. r.id == id) db.relay_rules
  unfolding ingest_health_snapshot write_statuses node_rule_tunnels current_statuses
  ingest_health_snapshot-foreign db node_id health reported_at h =
      write_status-other _ reported_at (foldl note_status [] health) db.relay_rules
        (current_statuses-none (node_rule_tunnels db node_id) id db _ h)
