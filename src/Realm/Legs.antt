-- ===== src/Realm/Legs.antt =====
-- The two ends of a link: what an entry dials is where the exit listens.
use tyz.Prelude.{
  nat_eq, ℕ, ◌≡◌, refl, sym, ap, ◌∙◌, Bool, true, false, some, none, List, [], ◌∷◌, arith,
  if◌then◌else◌, filter, any, ◌==◌, ==_iff, ==-refl, Bool-cases, Option-cases, inl, inr,
}
use tyz.Js.Map
use tyz.Js.Map.{JsMap, has}
use tyz.Entities.{RelayNode, RelayRule, RealmService, Chain, Balance, connect, listen}
use tyz.Db.{Database, TunnelRow}
use tyz.Db.Statements.{order_by}
use tyz.Realm.{exit_target_for}
use tyz.Realm.Render.{
  Rendered, is_in, is_out, is_chain, has_tls_link, get_chains_for_tunnels, is_on_tunnel, balance_of,
  entry_service, exit_service, render_entry, render_exit, render_rules, render_ends, render_tunnel,
}
use tyz.Db.Ordering.{filter-order_by}

-- The links of a tunnel, in the order in which the renderer meets them.
abbrev pub links_of : Database → ℕ → List Chain
links_of db tunnel_id = order_by (λ c. c.index) (filter (λ c. c.tunnel_id == tunnel_id) db.chains)

-- The out links of a tunnel, in the order of preference.
abbrev pub outs_of : Database → ℕ → List Chain
outs_of db tunnel_id =
    order_by (λ c. c.index) (order_by (λ c. c.id) (filter is_out (links_of db tunnel_id)))

-- Whichever tunnels a node serves, it reads the same links of one of them.
get_chains_for_tunnels-links_of :
    (db : Database) (ids : List ℕ) (tunnel_id : ℕ)
    → has ids tunnel_id ≡ true
    → filter (λ c. c.tunnel_id == tunnel_id) (get_chains_for_tunnels db ids) ≡ links_of db tunnel_id
get_chains_for_tunnels-links_of db ids tunnel_id served =
    filter-order_by (λ c. c.index) (λ c. c.tunnel_id == tunnel_id)
      (filter (λ c. has ids c.tunnel_id) db.chains)
    ∙ ap (order_by (λ c. c.index)) (narrowed db.chains)
  where
    narrowed :
        (chains : List Chain)
        → filter (λ c. c.tunnel_id == tunnel_id) (filter (λ c. has ids c.tunnel_id) chains)
          ≡ filter (λ c. c.tunnel_id == tunnel_id) chains
    narrowed [] = refl
    narrowed (c ∷ chains) = elim (Bool-cases (c.tunnel_id == tunnel_id)) [
      | inl same ↦
          let found : has ids c.tunnel_id ≡ true =
            rw ((==_iff c.tunnel_id tunnel_id).0 same) served in
          rw (found, same, narrowed chains) refl
      | inr other ↦ ground (arith, other, narrowed chains)
    ]

-- What an entry's leg dials is the leg of the exit, and both speak TLS or neither does.
pub record AreEnds (exit : RelayNode) (tls_link : Bool) (entry_leg exit_leg : RealmService)
    : Type 0 where
  pub name : entry_leg.name ≡ exit_leg.name
  pub host : entry_leg.target_host ≡ exit.address
  pub port : entry_leg.target_port ≡ exit_leg.listen_port
  pub connects : entry_leg.tls_side ≡ (if tls_link then some connect else none)
  pub listens : exit_leg.tls_side ≡ (if tls_link then some listen else none)

-- For one rule and the exit node of the first of some out links: a leg on the exit goes with one on
-- the entry that dials it.
entry_service-exit_service :
    (entry exit : RelayNode) (nodes_of_entry nodes_of_exit : JsMap ℕ RelayNode) (out : Chain)
    (outs : List Chain) (balance : Balance) (tls_link : Bool) (rule : RelayRule)
    (exit_leg : RealmService)
    → Map.get nodes_of_entry out.node_id ≡ some exit
    → exit_service exit nodes_of_exit tls_link rule ≡ some exit_leg
    → (entry_leg : RealmService) × (entry_service entry nodes_of_entry
          (out ∷ outs)
          balance
          tls_link
          rule
        ≡ some entry_leg)
      × AreEnds exit tls_link entry_leg exit_leg
unfolding entry_service exit_service exit_target_for
entry_service-exit_service entry exit nodes_of_entry nodes_of_exit out outs balance tls_link rule
      exit_leg known left =
    elim (Option-cases (entry_service entry nodes_of_entry (out ∷ outs) balance tls_link rule)) [
      | inl skipped ↦ absurd (ground (arith, known, left, skipped))
      | inr (entry_leg, entered) ↦ (entry_leg, entered, ground (arith, known, left, entered))
    ]

abbrev pub nothing : Rendered
nothing = record { services = []; tls_wanted = false }

exit_leg_of :
    (exit : RelayNode) (nodes : JsMap ℕ RelayNode) (in_end : Chain) (outs : List Chain)
    (tls_link : Bool) (rule : RelayRule) (exit_leg : RealmService)
    → (render_rules exit nodes false in_end outs tls_link (rule ∷ []) nothing).services
      ≡ exit_leg ∷ []
    → exit_service exit nodes tls_link rule ≡ some exit_leg
unfolding render_rules render_exit
exit_leg_of exit nodes in_end outs tls_link rule exit_leg h =
    elim (Option-cases (exit_service exit nodes tls_link rule)) [
      | inl skipped ↦ absurd (ground (arith, h, skipped))
      | inr (leg, found) ↦ ground (arith, h, found)
    ]

first_leg :
    (node : RelayNode) (nodes : JsMap ℕ RelayNode) (exits : List Chain) (balance : Balance)
    (tls_link : Bool) (rule : RelayRule) (leg : RealmService)
    → entry_service node nodes exits balance tls_link rule ≡ some leg
    → (others : List RealmService) × ((render_exit node nodes tls_link
          (render_entry node nodes exits balance tls_link nothing rule)
          rule).services
        ≡ leg ∷ others)
unfolding render_entry render_exit
first_leg node nodes exits balance tls_link rule leg entered =
    elim (Option-cases (exit_service node nodes tls_link rule)) [
      | inl alone ↦ ([], rw (entered, alone) refl)
      | inr (second, found) ↦ (second ∷ [], rw (entered, found) refl)
    ]

entry_leg_of :
    (entry exit : RelayNode) (nodes_of_entry nodes_of_exit : JsMap ℕ RelayNode) (in_end out : Chain)
    (outs : List Chain) (tls_link : Bool) (rule : RelayRule) (exit_leg : RealmService)
    → Map.get nodes_of_entry out.node_id ≡ some exit
    → exit_service exit nodes_of_exit tls_link rule ≡ some exit_leg
    → (entry_leg : RealmService) × (others : List RealmService) × ((render_rules entry
          nodes_of_entry true in_end
          (out ∷ outs)
          tls_link
          (rule ∷ [])
          nothing).services
        ≡ entry_leg ∷ others)
      × AreEnds exit tls_link entry_leg exit_leg
unfolding render_rules
entry_leg_of entry exit nodes_of_entry nodes_of_exit in_end out outs true rule exit_leg known left =
    let (leg, entered, ends) =
      entry_service-exit_service entry exit nodes_of_entry nodes_of_exit out []
        (balance_of in_end.strategy) true rule exit_leg known left in
    let (others, first) =
      first_leg entry nodes_of_entry (out ∷ []) (balance_of in_end.strategy) true rule leg
        entered in
    (leg, others, first, ends)
entry_leg_of entry exit nodes_of_entry nodes_of_exit in_end out outs false rule exit_leg known
      left =
    let (leg, entered, ends) =
      entry_service-exit_service entry exit nodes_of_entry nodes_of_exit out outs
        (balance_of in_end.strategy) false rule exit_leg known left in
    let (others, first) =
      first_leg entry nodes_of_entry (out ∷ outs) (balance_of in_end.strategy) false rule leg
        entered in
    (leg, others, first, ends)

module _ (db : Database) (tunnel : TunnelRow) (in_end out : Chain) (outs : List Chain)
    (one_in : filter is_in (links_of db tunnel.id) ≡ in_end ∷ [])
    (exits : outs_of db tunnel.id ≡ out ∷ outs)
    (two_ends : any is_chain (links_of db tunnel.id) ≡ false) (rule : RelayRule)
    (on_tunnel : rule.tunnel_id ≡ some tunnel.id) where
  its_rule :
      (node : RelayNode) (nodes : JsMap ℕ RelayNode) → is_on_tunnel node nodes tunnel.id rule ≡ true
  unfolding is_on_tunnel
  its_rule node nodes = rw (is_on_tunnel, on_tunnel, ==-refl tunnel.id) refl

  -- On either node the tunnel is rendered from the same links.
  rendered :
      (node : RelayNode) (nodes : JsMap ℕ RelayNode) (ids : List ℕ)
      → has ids tunnel.id ≡ true
      → render_tunnel node nodes (get_chains_for_tunnels db ids) (rule ∷ []) nothing tunnel
        ≡ render_ends node nodes (in_end ∷ []) (out ∷ outs) tunnel.tls_enabled (rule ∷ []) nothing
  unfolding render_tunnel
  rendered node nodes ids served =
      rw
        (
          render_tunnel,
          get_chains_for_tunnels-links_of db ids tunnel.id served,
          one_in,
          exits,
          two_ends,
          its_rule node nodes,
        )
        refl

  module _ (entry exit : RelayNode) (nodes_of_entry nodes_of_exit : JsMap ℕ RelayNode) where
    entry_ends :
        in_end.node_id ≡ entry.id
        → any (λ o. o.node_id == entry.id) (out ∷ outs) ≡ false
        → render_ends entry nodes_of_entry
            (in_end ∷ [])
            (out ∷ outs)
            tunnel.tls_enabled
            (rule ∷ [])
            nothing
          ≡ render_rules entry nodes_of_entry true in_end
              (out ∷ outs)
              (has_tls_link tunnel.tls_enabled (out ∷ outs))
              (rule ∷ [])
              nothing
    unfolding render_ends
    entry_ends at no_exit = ground (arith, at, no_exit, ==-refl entry.id)

    exit_ends :
        (in_end.node_id == exit.id) ≡ false
        → out.node_id ≡ exit.id
        → render_ends exit nodes_of_exit
            (in_end ∷ [])
            (out ∷ outs)
            tunnel.tls_enabled
            (rule ∷ [])
            nothing
          ≡ render_rules exit nodes_of_exit false in_end
              (out ∷ outs)
              (has_tls_link tunnel.tls_enabled (out ∷ outs))
              (rule ∷ [])
              nothing
    unfolding render_ends
    exit_ends other at = ground (arith, at, other, ==-refl exit.id)

    -- For a tunnel of two ends that is read from the database on both nodes, and a rule of it,
    -- rendered for that rule alone: where the exit node of the first out link serves a leg, the
    -- entry node serves first a leg which dials the exit node's address, as the entry knows it,
    -- at the very port on which the exit node's leg listens, and either both speak TLS, the
    -- entry connecting and the exit listening, or neither does, as the tunnel's own links
    -- decide, before material that cannot be had degrades a node to plaintext.
    pub render_tunnel-AreEnds :
        (entry_tunnels exit_tunnels : List ℕ) (exit_leg : RealmService)
        → has entry_tunnels tunnel.id ≡ true
        → has exit_tunnels tunnel.id ≡ true
        → in_end.node_id ≡ entry.id
        → any (λ o. o.node_id == entry.id) (out ∷ outs) ≡ false
        → (in_end.node_id == exit.id) ≡ false
        → out.node_id ≡ exit.id
        → Map.get nodes_of_entry out.node_id ≡ some exit
        → (render_tunnel exit nodes_of_exit
            (get_chains_for_tunnels db exit_tunnels)
            (rule ∷ [])
            nothing
            tunnel).services
          ≡ exit_leg ∷ []
        → (entry_leg : RealmService) × (others : List RealmService) × ((render_tunnel entry
              nodes_of_entry
              (get_chains_for_tunnels db entry_tunnels)
              (rule ∷ [])
              nothing
              tunnel).services
            ≡ entry_leg ∷ others)
          × AreEnds exit (has_tls_link tunnel.tls_enabled (out ∷ outs)) entry_leg exit_leg
    render_tunnel-AreEnds entry_tunnels exit_tunnels exit_leg on_entry on_exit enters no_exit other
          leaves known served =
        let tls = has_tls_link tunnel.tls_enabled (out ∷ outs) in
        let left = exit_leg_of exit nodes_of_exit in_end (out ∷ outs) tls rule exit_leg (
          ap (λ r. r.services)
            (sym (rendered exit nodes_of_exit exit_tunnels on_exit ∙ exit_ends other leaves))
          ∙ served) in
        let (entry_leg, others, first, ends) =
          entry_leg_of entry exit nodes_of_entry nodes_of_exit in_end out outs tls rule exit_leg
            known left in
        (
          entry_leg,
          others,
          ap (λ r. r.services)
                (rendered entry nodes_of_entry entry_tunnels on_entry ∙ entry_ends enters no_exit)
              ∙ first,
          ends,
        )
