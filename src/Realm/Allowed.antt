-- ===== src/Realm/Allowed.antt =====
-- Which rules the services of a node config stand for.
use tyz.Prelude.{
  subst, ℕ, ◌≡◌, refl, ap, ◌∙◌, Bool, false, Option, none, some, inl, inr, List, [], ◌∷◌, Text,
  arith, map, filter, All, All-append, All-imp, Option-cases, Bool-cases, nat_eq, All-filter_of,
}
use mathlib.Core.List.{Memᴰ}
use tyz.Entities.{RelayRule, RealmService, RealmNodeConfig, TlsMaterial}
use tyz.Db.{Database, NodeRow, TunnelRow}
use tyz.Traffic.{service_name}
use tyz.Quota.{keep_gated, apply_rule_quotas}
use tyz.Quota.Gate.{apply_rule_quotas-serve_rule, serve_rule, IsAllowed}
use tyz.Quota.Decisions.{decision_of}
use tyz.Realm.{service_limit_of}
use tyz.Tls.{Issuer, ensure_tls_material}
use tyz.Realm.Render.{
  Rendered, push, get_node, get_rules_for_tunnels, get_tunnels_by_ids, to_relay_rule, is_of_tunnels,
}
use tyz.Realm.Services.{All-foldl, IsLeg, I-render_tunnel, All-sort}
use tyz.Realm.Build.{
  Comparison, sort_services, render_tunnels, drop_tls, attach_material, config_for,
  build_realm_node_config,
}

-- The rule stands for a stored rule: same id, same limits, and the stored rule's owner, if it has
-- one, is not stopped.
abbrev IsServable : Database → Text → RelayRule → Type 0
IsServable db now r =
    (row : RelayRule) × Memᴰ row db.relay_rules
    × IsAllowed db now row
    × (r.id ≡ row.id)
    × (service_limit_of r ≡ service_limit_of row)

-- The service stands for a stored rule: it has its name and its limits, and the rule's owner, if it
-- has one, is not stopped.
abbrev pub IsAllowedService : Database → Text → RealmService → Type 0
IsAllowedService db now s =
    (row : RelayRule) × Memᴰ row db.relay_rules
    × IsAllowed db now row
    × (s.name ≡ service_name row.id)
    × (s.limit ≡ service_limit_of row)

serve_rule-IsServable :
    (db : Database) (now : Text) (row kept : RelayRule)
    → Memᴰ row db.relay_rules
    → serve_rule db now (to_relay_rule row) ≡ some kept
    → IsServable db now kept
unfolding service_limit_of
serve_rule-IsServable db now row kept m e = elim (Option-cases row.user_id) [
  | inl free ↦ (row, m, λ id owned. ground arith, ground arith, ground arith)
  | inr (u, of_u) ↦ elim (Bool-cases (decision_of db now u).stopped) [
    | inl stops ↦ absurd (ground arith)
    | inr goes ↦ elim (Option-cases (decision_of db now u).quota) [
      | inl no_quota ↦ (row, m, λ id owned. ground arith, ground arith, ground arith)
      | inr (quota, e_quota) ↦ (row, m, λ id owned. ground arith, ground arith, ground arith)
    ]
  ]
]

All-keep_gated_of :
    {A : Type 0} (P : RelayRule → Type 0) (f : RelayRule → Option RelayRule) (to : A → RelayRule)
    (Q : A → Type 0)
    → ((a : A) (kept : RelayRule) → Q a → f (to a) ≡ some kept → P kept)
    → (l : List A) → All Q l
    → All P (keep_gated f (map to l))
unfolding keep_gated
All-keep_gated_of P f to Q h [] q = tt
All-keep_gated_of P f to Q h (a ∷ l) q = elim (Option-cases (f (to a))) [
  | inl refused ↦ rw (refused, All) (All-keep_gated_of P f to Q h l q.1)
  | inr (kept, e) ↦ rw (e, All) (h a kept q.0 e, All-keep_gated_of P f to Q h l q.1)
]

All-Mem {ℓ} : {A : Type ℓ} (l : List A) → All (λ x. Memᴰ x l) l
All-Mem [] = tt
All-Mem (x ∷ l) = (
  Memᴰ.head refl,
  All-imp (λ y. Memᴰ y l) (λ y. Memᴰ y (x ∷ l)) (λ y m. Memᴰ.tail m) l (All-Mem l),
)

All-IsServable :
    (db : Database) (tunnel_ids : List ℕ) (now : Text)
    → All (IsServable db now) (apply_rule_quotas db (get_rules_for_tunnels db tunnel_ids) now)
All-IsServable db tunnel_ids now = rw apply_rule_quotas-serve_rule (
    All-keep_gated_of (IsServable db now) (serve_rule db now) to_relay_rule
      (λ row. Memᴰ row db.relay_rules) (serve_rule-IsServable db now)
      (filter (is_of_tunnels tunnel_ids) db.relay_rules)
      (All-filter_of (λ row. Memᴰ row db.relay_rules) (is_of_tunnels tunnel_ids) db.relay_rules
        (All-Mem db.relay_rules)))

-- Without TLS material that was asked for, no service has a TLS side.
abbrev IsPlain : RealmService → Type 0
IsPlain s = s.tls_side ≡ none

abbrev WantsTls : Rendered → Type 0
WantsTls acc = acc.tls_wanted ≡ false → All IsPlain acc.services

abbrev IsSound : Database → Text → Rendered → Type 0
IsSound db now acc = All (IsAllowedService db now) acc.services × WantsTls acc

push-IsSound :
    (db : Database) (now : Text) (acc : Rendered) (rule : RelayRule) (wanted : Bool)
    (service : Option RealmService)
    → IsSound db now acc
    → IsServable db now rule
    → IsLeg rule wanted service
    → IsSound db now (push acc wanted service)
push-IsSound db now acc rule wanted none h servable leg = (h.0, λ off. h.1 (ground arith))
push-IsSound db now acc rule wanted (some s) h (row, m, allowed, same_id, same_limit) leg =
    let of_rule = leg s refl in
    (
      All-append (IsAllowedService db now) acc.services (s ∷ []) h.0
          ((row, m, allowed, of_rule.0.0 ∙ ap service_name same_id, of_rule.0.1 ∙ same_limit), tt),
      λ off.
          All-append IsPlain acc.services (s ∷ []) (h.1 (ground arith))
            (of_rule.1 (ground arith), tt),
    )

render_tunnels-IsSound :
    (db : Database) (node : NodeRow) (now : Text) → IsSound db now (render_tunnels db node now)
unfolding render_tunnels
render_tunnels-IsSound db node now =
    All-foldl (IsSound db now) (λ _. Unit {0}) _
      (I-render_tunnel (IsSound db now) (IsServable db now) (push-IsSound db now) node.entity _ _ _
        (All-IsServable db _ now))
      (get_tunnels_by_ids db _) _ (tt, λ _. tt) (All-Unit (get_tunnels_by_ids db _))
  where
    All-Unit : (l : List TunnelRow) → All (λ _. Unit {0}) l
    All-Unit [] = tt
    All-Unit (_ ∷ l) = (tt, All-Unit l)

-- What a config promises, with or without material.
abbrev IsSoundConfig : Database → Text → RealmNodeConfig → Type 0
IsSoundConfig db now config =
    All (IsAllowedService db now) config.services
    × (config.tls_material ≡ none → All IsPlain config.services)

All-drop_tls :
    (db : Database) (now : Text) (services : List RealmService)
    → All (IsAllowedService db now) services
    → All (IsAllowedService db now) (map drop_tls services) × All IsPlain (map drop_tls services)
All-drop_tls db now [] h = (tt, tt)
All-drop_tls db now (s ∷ services) h =
    let rest = All-drop_tls db now services h.1 in ((h.0, rest.0), (refl, rest.1))

attach-IsSound :
    (db : Database) (now : Text) (node : NodeRow) (services : List RealmService)
    (issued : Option TlsMaterial × Database)
    → All (IsAllowedService db now) services
    → IsSoundConfig db now (attach_material node services issued).0
attach-IsSound db now node services (some material, db') h = (h, λ off. absurd (ground arith))
attach-IsSound db now node services (none, db') h =
    let dropped = All-drop_tls db now services h in (dropped.0, λ _. dropped.1)

module _ (issuer : Issuer) (locale_compare : Text → Text → Comparison) where
  config_for-IsSound :
      (db : Database) (node : NodeRow) (now : Text)
      → IsSoundConfig db now (config_for issuer locale_compare db node now).0
  unfolding config_for
  config_for-IsSound db node now =
      let rendered = render_tunnels db node now in
      let sound = render_tunnels-IsSound db node now in
      let sorted = All-sort (IsAllowedService db now) locale_compare rendered.services sound.0 in
      elim (Bool-cases rendered.tls_wanted) [
        | inl e ↦
            rw (config_for, e)
              (attach-IsSound db now node (sort_services locale_compare rendered.services)
                (ensure_tls_material issuer db now) sorted)
        | inr e ↦
            rw (config_for, e)
              (sorted, λ _. All-sort IsPlain locale_compare rendered.services (sound.1 e))
      ]

  built-IsSound :
      (db : Database) (node_id : ℕ) (now : Text) (config : RealmNodeConfig)
      → (build_realm_node_config issuer locale_compare db node_id now).0 ≡ some config
      → IsSoundConfig db now config
  unfolding build_realm_node_config
  built-IsSound db node_id now config e = elim (Option-cases (get_node db node_id)) [
    | inl absent ↦
        let nothing : (build_realm_node_config issuer locale_compare db node_id now).0 ≡ none =
          rw (build_realm_node_config, absent) refl in
        absurd (ground arith)
    | inr (node, there) ↦
        let built : (build_realm_node_config issuer locale_compare db node_id now).0
            ≡ some (config_for issuer locale_compare db node now).0 =
          rw (build_realm_node_config, there) refl in
        let same : (config_for issuer locale_compare db node now).0 ≡ config = cc in
        subst (IsSoundConfig db now) same (config_for-IsSound db node now)
  ]

  -- Every service in the config that is built for a node stands for a stored rule, with its name and
  -- its limits, whose owner, if it has one, is not stopped by the quota.
  pub build_realm_node_config-IsAllowedService :
      (db : Database) (node_id : ℕ) (now : Text) (config : RealmNodeConfig)
      → (build_realm_node_config issuer locale_compare db node_id now).0 ≡ some config
      → All (IsAllowedService db now) config.services
  build_realm_node_config-IsAllowedService db node_id now config e =
      (built-IsSound db node_id now config e).0

  -- A config that is built without TLS material, be it that none is wanted or that none could be
  -- had, has no service with a TLS side: both legs are plaintext.
  pub build_realm_node_config-IsPlain :
      (db : Database) (node_id : ℕ) (now : Text) (config : RealmNodeConfig)
      → (build_realm_node_config issuer locale_compare db node_id now).0 ≡ some config
      → config.tls_material ≡ none
      → All (λ (s : RealmService). s.tls_side ≡ none) config.services
  build_realm_node_config-IsPlain db node_id now config e off =
      (built-IsSound db node_id now config e).1 off
