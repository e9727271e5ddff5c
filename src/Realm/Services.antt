-- ===== src/Realm/Services.antt =====
-- The render loops and the sort, for any property of the services that stand for allowed rules.
use tyz.Prelude.{
  ℕ, ◌≡◌, Bool, true, false, not, ◌&&◌, ◌||◌, Option, none, some, inl, inr, List, [], ◌∷◌, Text,
  arith, foldl, filter, any, All, Bool-cases, ◌==◌, nat_eq, All-filter_of,
}
use tyz.Js.Map.{JsMap}
use tyz.Entities.{RelayNode, RelayRule, RealmService, Chain, Balance}
use tyz.Db.{TunnelRow}
use tyz.Traffic.{service_name}
use tyz.Realm.{service_limit_of}
use tyz.Realm.Render.{
  Rendered, push, entry_service, exit_service, render_entry, render_exit, render_rules, render_ends,
  has_tls_link, is_chain, render_tunnel, is_on_tunnel,
}
use tyz.Realm.Build.{Comparison, sorts_after, insert_service, sort_services}

-- The service carries the name and the limits of the rule.
abbrev pub Carries : RealmService → RelayRule → Type 0
Carries s rule = (s.name ≡ service_name rule.id) × (s.limit ≡ service_limit_of rule)

-- A leg that is served carries its rule, and speaks TLS only if it asks for TLS material.
abbrev pub IsLeg : RelayRule → Bool → Option RealmService → Type 0
IsLeg rule wanted service =
    (s : RealmService) → service ≡ some s → Carries s rule × (wanted ≡ false → s.tls_side ≡ none)

module _ (node : RelayNode) (node_by_id : JsMap ℕ RelayNode) where
  entry_service-IsLeg :
      (exits : List Chain) (balance : Balance) (tls_link : Bool) (rule : RelayRule)
      → IsLeg rule tls_link (entry_service node node_by_id exits balance tls_link rule)
  unfolding entry_service
  entry_service-IsLeg exits balance tls_link rule s e = (ground arith, λ off. ground arith)

  exit_service-IsLeg :
      (tls_link : Bool) (rule : RelayRule)
      → let service = exit_service node node_by_id tls_link rule in
        IsLeg rule (elim service [ none ↦ false | some _ ↦ tls_link ]) service
  unfolding exit_service
  exit_service-IsLeg tls_link rule s e = (ground arith, λ off. ground arith)

-- A fold whose steps keep a property, each on an element that allows it.
pub All-foldl {ℓ κ μ ν} :
    {A : Type ℓ} {S : Type κ} (I : S → Type μ) (Q : A → Type ν) (step : S → A → S)
    → ((s : S) (x : A) → I s → Q x → I (step s x))
    → (xs : List A) (s : S) → I s
    → All Q xs
    → I (foldl step s xs)
All-foldl I Q step keeps [] s h q = h
All-foldl I Q step keeps (x ∷ xs) s h q =
    All-foldl I Q step keeps xs (step s x) (keeps s x h q.0) q.1

-- What each leg of an allowed rule keeps, all the loops keep.
module _ {ℓ κ} (I : Rendered → Type ℓ) (Q : RelayRule → Type κ)
    (keeps : (acc : Rendered) (rule : RelayRule) (wanted : Bool) (service : Option RealmService)
      → I acc
      → Q rule
      → IsLeg rule wanted service
      → I (push acc wanted service)) where
  module _ (node : RelayNode) (node_by_id : JsMap ℕ RelayNode) where
    I-render_entry :
        (exits : List Chain) (balance : Balance) (tls_link : Bool) (acc : Rendered)
        (rule : RelayRule)
        → I acc
        → Q rule
        → I (render_entry node node_by_id exits balance tls_link acc rule)
    unfolding render_entry
    I-render_entry exits balance tls_link acc rule h q =
        keeps acc rule tls_link (entry_service node node_by_id exits balance tls_link rule) h q
          (entry_service-IsLeg node node_by_id exits balance tls_link rule)

    I-render_exit :
        (tls_link : Bool) (acc : Rendered) (rule : RelayRule)
        → I acc
        → Q rule
        → I (render_exit node node_by_id tls_link acc rule)
    unfolding render_exit
    I-render_exit tls_link acc rule h q =
        let service = exit_service node node_by_id tls_link rule in
        keeps acc rule (elim service [ none ↦ false | some _ ↦ tls_link ]) service h q
          (exit_service-IsLeg node node_by_id tls_link rule)

    I-render_rules :
        (is_in_node : Bool) (in_end : Chain) (outs : List Chain) (tls_link : Bool)
        (rules : List RelayRule) (acc : Rendered)
        → I acc
        → All Q rules
        → I (render_rules node node_by_id is_in_node in_end outs tls_link rules acc)
    unfolding render_rules
    I-render_rules true in_end outs tls_link rules acc h q =
        All-foldl I Q (render_exit node node_by_id tls_link) (I-render_exit tls_link) rules _
          (All-foldl I Q _ (I-render_entry _ _ tls_link) rules acc h q) q
    I-render_rules false in_end outs tls_link rules acc h q =
        All-foldl I Q (render_exit node node_by_id tls_link) (I-render_exit tls_link) rules acc h q

    I-render_ends :
        (ins outs : List Chain) (tls_enabled : Bool) (rules : List RelayRule) (acc : Rendered)
        → I acc
        → All Q rules
        → I (render_ends node node_by_id ins outs tls_enabled rules acc)
    unfolding render_ends
    I-render_ends [] outs tls_enabled rules acc h q = h
    I-render_ends (_ ∷ _ ∷ _) outs tls_enabled rules acc h q = h
    I-render_ends (in_end ∷ []) outs tls_enabled rules acc h q =
        let is_in_node = in_end.node_id == node.id in
        let own_out = any (λ o. o.node_id == node.id) outs in
        elim (Bool-cases ((is_in_node && own_out) || (not is_in_node && not own_out))) [
          | inl e ↦ rw e h
          | inr e ↦
              rw e (
                I-render_rules is_in_node in_end outs (has_tls_link tls_enabled outs) rules acc h q)
        ]

    pub I-render_tunnel :
        (all_chains : List Chain) (rules : List RelayRule)
        → All Q rules
        → (acc : Rendered) (tunnel : TunnelRow) → I acc
        → Unit {0}
        → I (render_tunnel node node_by_id all_chains rules acc tunnel)
    unfolding render_tunnel
    I-render_tunnel all_chains rules q acc tunnel h _ =
        elim (Bool-cases (any is_chain (filter (λ c. c.tunnel_id == tunnel.id) all_chains))) [
          | inl e ↦ rw e h
          | inr e ↦ rw e (
              I-render_ends _ _ tunnel.tls_enabled _ acc h
                (All-filter_of Q (is_on_tunnel node node_by_id tunnel.id) rules q))
        ]

module _ {ℓ} (P : RealmService → Type ℓ) where
  All-insert :
      (locale_compare : Text → Text → Comparison) (s : RealmService) (services : List RealmService)
      → P s
      → All P services
      → All P (insert_service locale_compare s services)
  unfolding insert_service
  All-insert locale_compare s [] h hs = (h, tt)
  All-insert locale_compare s (t ∷ services) h hs =
      elim (Bool-cases (sorts_after locale_compare s t)) [
        | inl e ↦ rw (e, All) (hs.0, All-insert locale_compare s services h hs.1)
        | inr e ↦ rw (e, All) (h, hs)
      ]

  pub All-sort :
      (locale_compare : Text → Text → Comparison) (services : List RealmService)
      → All P services
      → All P (sort_services locale_compare services)
  unfolding sort_services
  All-sort locale_compare [] h = tt
  All-sort locale_compare (s ∷ services) h =
      All-insert locale_compare s (sort_services locale_compare services) h.0
        (All-sort locale_compare services h.1)
