-- ===== src/Admin/Shaped.antt =====
-- apps/server/src/routes/admin.ts: the writes of links keep the shape of every tunnel.
use tyz.Prelude.{
  ℕ, ◌+◌, ◌≤◌, ◌≡◌, sym, true, not, ◌&&◌, ◌↔◌, none, some, arith, filter, nat_eq, subst, ◌∷◌, ◌++◌,
  false, ◌==◌, ==_iff, Text, Bool-cases, inl, inr, [], ==-refl, ◌&&◌, not,
}
use tyz.Entities.{ChainType, Transport}
use tyz.Db.{Database, TunnelRow}
use tyz.Db.Counting.{bit, count, length-filter, count-filter, count-append}
use tyz.Realm.Render.{is_out}
use tyz.Admin.Shape.{
  TunnelShape, get_tunnel, on_tunnel, shape_of, tunnel_shape, is_tls_link, is_tls_transport,
  validate_projected_shape,
}
use tyz.Admin.Counts.{
  IsShaped, IsCounted, out_on, plain_on, is_plain_out, tunnel_shape-ins, tunnel_shape-outs,
  plain_first, tls_shape_problem-none, validate_projected_shape-none, in_on,
}
use tyz.Admin.Chains.{is_in_type, is_out_type, with_link, CreateChainInput, created_chain}

plain_shape :
    (db : Database) (t : ℕ)
    → count (out_on t) db.chains ≤ 1
    → (count (plain_on t) db.chains ≡ 0)
      ↔ ((tunnel_shape db t).outs ≡ 1 → is_tls_transport (tunnel_shape db t).out_transport ≡ true)
unfolding tunnel_shape shape_of
plain_shape db t once =
    let rows = filter (on_tunnel t) db.chains in
    rw (length-filter is_out rows, ← count-filter is_plain_out (on_tunnel t) db.chains)
      (plain_first rows (rw (count-filter is_out (on_tunnel t) db.chains) once))

-- The check of what is stored, in numbers of links.
pub IsShaped-iff : (db : Database) (t : ℕ) → IsShaped db t ↔ IsCounted db t db.chains
IsShaped-iff db t =
    let in_eq = tunnel_shape-ins db t in
    let out_eq = tunnel_shape-outs db t in
    let problem = tls_shape_problem-none (tunnel_shape db t) in
    (
      λ h. (
        subst (λ n. n ≤ 1) in_eq h.0,
        λ row found tls.
            let ok = problem.0 (h.1 row found tls) in
            let once = subst (λ n. n ≤ 1) out_eq ok.1 in (once, (plain_shape db t once).1 ok.2),
      ),
      λ h. (
        subst (λ n. n ≤ 1) (sym in_eq) h.0,
        λ row found tls.
            let ok = h.1 row found tls in
            problem.1 (
              subst (λ n. n ≤ 1) (sym in_eq) h.0,
              subst (λ n. n ≤ 1) (sym out_eq) ok.0,
              (plain_shape db t ok.0).0 ok.1,
            ),
      ),
    )

-- What the validation of a projected shape gives, for a link beside `i`, `o` and `p` others.
pub fits :
    (db : Database) (t : ℕ) (others : TunnelShape) (ty : ChainType) (tr : Transport) (p : ℕ)
    → ((row : TunnelRow) → get_tunnel db t ≡ some row → row.tls_enabled ≡ true → p ≡ 0)
    → validate_projected_shape db t (with_link others ty tr) ≡ none
    → (others.ins + bit (is_in_type ty) ≤ 1)
      × ((row : TunnelRow)
          → get_tunnel db t ≡ some row
          → row.tls_enabled ≡ true
          → (others.outs + bit (is_out_type ty) ≤ 1)
            × (p + bit (is_out_type ty && not (is_tls_link tr)) ≡ 0))
unfolding with_link
fits db t others ty tr p plain h =
    let ok = validate_projected_shape-none db t (with_link others ty tr) h in
    (
      ground (arith, ok.0),
      λ row found tls.
          let sound =
            (tls_shape_problem-none (with_link others ty tr)).0
              (ok.1 row found tls (omega arith)) in
          let none_plain = plain row found tls in ground (arith, sound, none_plain),
    )

module _ (db : Database) (input : CreateChainInput) (id : ℕ) (now : Text) where
  created_here :
      IsCounted db input.tunnel_id db.chains
      → validate_projected_shape db input.tunnel_id
          (with_link (tunnel_shape db input.tunnel_id) input.chain_type input.transport)
        ≡ none
      → IsCounted db input.tunnel_id (db.chains ++ created_chain input id now ∷ [])
  unfolding created_chain
  created_here h valid =
      let t = input.tunnel_id in
      let link = created_chain input id now ∷ [] in
      let fit =
        fits db t (tunnel_shape db t) input.chain_type input.transport
          (count (plain_on t) db.chains) (λ row found tls. (h.1 row found tls).1) valid in
      (
        rw (count-append (in_on t) db.chains link, ==-refl t)
            (omega (arith, fit.0, tunnel_shape-ins db t)),
        λ row found tls.
            let ok = fit.1 row found tls in
            (
              rw (count-append (out_on t) db.chains link, ==-refl t)
                  (omega (arith, ok.0, tunnel_shape-outs db t)),
              rw (count-append (plain_on t) db.chains link, ==-refl t) (omega (arith, ok.1)),
            ),
      )

  created_elsewhere :
      (t : ℕ)
      → (input.tunnel_id == t) ≡ false
      → IsCounted db t db.chains
      → IsCounted db t (db.chains ++ created_chain input id now ∷ [])
  unfolding created_chain
  created_elsewhere t other h =
      let link = created_chain input id now ∷ [] in
      (
        rw (count-append (in_on t) db.chains link, other) (omega (arith, h.0)),
        λ row found tls.
            let ok = h.1 row found tls in
            (
              rw (count-append (out_on t) db.chains link, other) (omega (arith, ok.0)),
              rw (count-append (plain_on t) db.chains link, other) (omega (arith, ok.1)),
            ),
      )

  pub created-IsShaped :
      ((t : ℕ) → IsShaped db t)
      → validate_projected_shape db input.tunnel_id
          (with_link (tunnel_shape db input.tunnel_id) input.chain_type input.transport)
        ≡ none
      → (t : ℕ) → IsShaped (record db { chains = db.chains ++ created_chain input id now ∷ [] }) t
  created-IsShaped h valid t =
      (IsShaped-iff (record db { chains = db.chains ++ created_chain input id now ∷ [] }) t).1
        (elim (Bool-cases (input.tunnel_id == t)) [
          | inl here ↦
              subst (λ t. IsCounted db t (db.chains ++ created_chain input id now ∷ []))
                ((==_iff input.tunnel_id t).0 here)
                (created_here ((IsShaped-iff db input.tunnel_id).0 (h input.tunnel_id)) valid)
          | inr other ↦ created_elsewhere t other ((IsShaped-iff db t).0 (h t))
        ])
