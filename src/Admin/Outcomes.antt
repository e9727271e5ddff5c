-- ===== src/Admin/Outcomes.antt =====
-- apps/server/src/routes/admin.ts: what a write of a tunnel or a link leaves in the database, which
-- is all or nothing.
use tyz.Prelude.{
  ℕ, ◌≡◌, refl, not, ◌⊎◌, none, some, [], ◌∷◌, ◌++◌, Text, map, filter, ◌==◌, nat_eq, arith,
  Bool-cases, Option-cases, inl, inr,
}
use tyz.Entities.{Chain}
use tyz.Db.{Database}
use tyz.Admin.{patched}
use tyz.Admin.Shape.{validate_projected_shape, tunnel_shape}
use tyz.Admin.Chains.{
  CreateChainInput, UpdateChainInput, with_link, created_chain, create_chain, projected_shape,
  update_chain, get_chain, may_reference, update_chain_row, delete_chain,
}
use tyz.Admin.Tunnels.{
  CreateTunnelInput, UpdateTunnelInput, created_tunnel, create_tunnel, mode_problem,
  update_tunnel_row, update_tunnel, without_tunnel, delete_tunnel,
}

pub create_chain-outcome :
    (input : CreateChainInput) (id : ℕ) (now : Text) (db : Database)
    → ((create_chain (some input) id now db).db ≡ db)
      ⊎ ((validate_projected_shape db input.tunnel_id
              (with_link (tunnel_shape db input.tunnel_id) input.chain_type input.transport)
            ≡ none)
          × ((create_chain (some input) id now db).db
              ≡ record db { chains = db.chains ++ created_chain input id now ∷ [] }))
unfolding create_chain
create_chain-outcome input id now db = ground arith

pub update_chain-outcome :
    (id : ℕ) (input : UpdateChainInput) (now : Text) (db : Database)
    → ((update_chain id (some input) now db).db ≡ db)
      ⊎ ((existing : Chain) × (get_chain db id ≡ some existing)
          × (validate_projected_shape db
                (patched input.tunnel_id existing.tunnel_id)
                (projected_shape db input existing)
              ≡ none)
          × ((update_chain id (some input) now db).db ≡ update_chain_row id input now db))
unfolding update_chain
update_chain-outcome id input now db = elim (Option-cases (get_chain db id)) [
  | inl missing ↦ inl (rw (update_chain, missing) refl)
  | inr (existing, found) ↦
      let target = patched input.tunnel_id existing.tunnel_id in
      elim (Option-cases (validate_projected_shape db target (projected_shape db input existing))) [
        | inr (problem, refused) ↦ inl (rw (update_chain, found, refused) refl)
        | inl valid ↦ elim (Bool-cases (may_reference db input.node_id)) [
          | inr dangling ↦ inl (rw (update_chain, found, valid, dangling) refl)
          | inl stored ↦ inr (existing, found, valid, rw (update_chain, found, valid, stored) refl)
        ]
      ]
]

pub delete_chain-outcome :
    (id : ℕ) (db : Database)
    → ((delete_chain id db).db ≡ db)
      ⊎ ((delete_chain id db).db
          ≡ record db { chains = filter (λ (c : Chain). not (c.id == id)) db.chains })
unfolding delete_chain
delete_chain-outcome id db = ground arith

pub create_tunnel-outcome :
    (input : CreateTunnelInput) (id : ℕ) (user_token pass_token now : Text) (db : Database)
    → ((create_tunnel (some input) id user_token pass_token now db).db ≡ db)
      ⊎ ((create_tunnel (some input) id user_token pass_token now db).db ≡ record db {
        tunnels = db.tunnels ++ created_tunnel input id user_token pass_token now ∷ [];
      })
unfolding create_tunnel
create_tunnel-outcome input id user_token pass_token now db = ground arith

pub update_tunnel-outcome :
    (id : ℕ) (input : UpdateTunnelInput) (now : Text) (db : Database)
    → ((update_tunnel id (some input) now db).db ≡ db)
      ⊎ ((mode_problem db id input ≡ none)
          × ((update_tunnel id (some input) now db).db
              ≡ record db { tunnels = map (update_tunnel_row id input now) db.tunnels }))
unfolding update_tunnel
update_tunnel-outcome id input now db = ground arith

pub delete_tunnel-outcome :
    (id : ℕ) (db : Database)
    → ((delete_tunnel id db).db ≡ db) ⊎ ((delete_tunnel id db).db ≡ without_tunnel id db)
unfolding delete_tunnel
delete_tunnel-outcome id db = ground arith
