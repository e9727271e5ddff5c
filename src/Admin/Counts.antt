-- ===== src/Admin/Counts.antt =====
-- apps/server/src/routes/admin.ts: the shape of a tunnel in numbers of links, and what the two
-- validations let through.
use tyz.Prelude.{
  ℕ, ◌≤◌, ◌<◌, ◌≡◌, ◌∙◌, Bool, true, not, ◌&&◌, ◌↔◌, none, some, List, [], ◌∷◌, arith, filter,
  Bool-cases, Option-cases, inl, inr, nat_eq,
}
use tyz.Entities.{Chain}
use tyz.Db.{Database, TunnelRow}
use tyz.Db.Counting.{count, length-filter, count-filter, count-le}
use tyz.Realm.Render.{is_in, is_out}
use tyz.Admin.Shape.{
  TunnelShape, get_tunnel, on_tunnel, first_transport, shape_of, tunnel_shape, is_tls_link,
  is_tls_transport, tls_shape_problem, validate_projected_shape,
}

-- The code's own check passes for what is stored: at most one link enters the tunnel, and if its
-- TLS is on, at most one leaves it, over TLS.
abbrev pub IsShaped : Database → ℕ → Type 0
IsShaped db tunnel_id =
    ((tunnel_shape db tunnel_id).ins ≤ 1)
    × ((row : TunnelRow)
        → get_tunnel db tunnel_id ≡ some row
        → row.tls_enabled ≡ true
        → tls_shape_problem (tunnel_shape db tunnel_id) ≡ none)

abbrev pub in_on : ℕ → Chain → Bool
in_on t c = on_tunnel t c && is_in c

abbrev pub out_on : ℕ → Chain → Bool
out_on t c = on_tunnel t c && is_out c

abbrev pub is_plain_out : Chain → Bool
is_plain_out c = is_out c && not (is_tls_link c.transport)

abbrev pub plain_on : ℕ → Chain → Bool
plain_on t c = on_tunnel t c && is_plain_out c

-- The same in numbers of links.
abbrev pub IsCounted : Database → ℕ → List Chain → Type 0
IsCounted db t rows =
    (count (in_on t) rows ≤ 1)
    × ((row : TunnelRow)
        → get_tunnel db t ≡ some row
        → row.tls_enabled ≡ true
        → (count (out_on t) rows ≤ 1) × (count (plain_on t) rows ≡ 0))

pub tunnel_shape-ins : (db : Database) (t : ℕ) → (tunnel_shape db t).ins ≡ count (in_on t) db.chains
unfolding tunnel_shape shape_of
tunnel_shape-ins db t =
    length-filter is_in (filter (on_tunnel t) db.chains)
    ∙ count-filter is_in (on_tunnel t) db.chains

pub tunnel_shape-outs :
    (db : Database) (t : ℕ) → (tunnel_shape db t).outs ≡ count (out_on t) db.chains
unfolding tunnel_shape shape_of
tunnel_shape-outs db t =
    length-filter is_out (filter (on_tunnel t) db.chains)
    ∙ count-filter is_out (on_tunnel t) db.chains

pub plain_le_outs : (t : ℕ) (rows : List Chain) → count (plain_on t) rows ≤ count (out_on t) rows
plain_le_outs t rows = count-le (plain_on t) (out_on t) (λ c h. ground arith) rows

pub plain_first :
    (rows : List Chain)
    → count is_out rows ≤ 1
    → (count is_plain_out rows ≡ 0)
      ↔ (count is_out rows ≡ 1 → is_tls_transport (first_transport (filter is_out rows)) ≡ true)
plain_first [] once = ground arith
plain_first (c ∷ rows) once =
    let fewer : count is_plain_out rows ≤ count is_out rows =
      count-le is_plain_out is_out (λ c h. ground arith) rows in
    elim (Bool-cases (is_out c)) [
      | inl out ↦ rw out (ground arith)
      | inr other ↦ rw other (ground (arith, plain_first rows))
    ]

pub tls_shape_problem-none :
    (s : TunnelShape)
    → (tls_shape_problem s ≡ none)
      ↔ ((s.ins ≤ 1) × (s.outs ≤ 1) × (s.outs ≡ 1 → is_tls_transport s.out_transport ≡ true))
unfolding tls_shape_problem
tls_shape_problem-none s = ground arith

pub validate_projected_shape-none :
    (db : Database) (t : ℕ) (s : TunnelShape)
    → validate_projected_shape db t s ≡ none
    → (s.ins ≤ 1)
      × ((row : TunnelRow)
          → get_tunnel db t ≡ some row
          → row.tls_enabled ≡ true
          → 0 < s.total
          → tls_shape_problem s ≡ none)
unfolding validate_projected_shape
validate_projected_shape-none db t s h = elim (Option-cases (get_tunnel db t)) [
  | inl missing ↦ absurd (ground (arith, missing))
  | inr (stored, found) ↦ (ground (arith, found), λ row here tls some_link. ground (arith, found))
]
