-- ===== src/Admin/Retuned.antt =====
-- apps/server/src/routes/admin.ts: the writes of tunnels keep the shape of every tunnel.
use tyz.Admin.Moved.{fewer-IsShaped}
use tyz.Prelude.{
  ℕ, ◌≡◌, refl, sym, ◌∙◌, subst, Bool, true, not, none, some, List, [], ◌∷◌, ◌++◌, Text, map,
  filter, find?, arith, ◌==◌, ==_iff, nat_eq, Bool-cases, Option-cases, inl, inr, ◌⊎◌, ap,
}
use tyz.Entities.{Chain}
use tyz.Db.{Database, TunnelRow}
use tyz.Db.Counting.{count, count-le, length-filter}
use tyz.Db.Finding.{find_sound, find-filter, find-filter-none, find-map, find-append}
use tyz.Admin.{patched}
use tyz.Admin.Shape.{get_tunnel, on_tunnel, tunnel_shape, tls_shape_problem, validate_tunnel_mode}
use tyz.Admin.Counts.{IsShaped, IsCounted, in_on, out_on, plain_on}
use tyz.Admin.Shaped.{IsShaped-iff}
use tyz.Admin.Tunnels.{
  CreateTunnelInput, UpdateTunnelInput, created_tunnel, mode_problem, update_tunnel_row,
  without_tunnel,
}

-- No link stands on a tunnel that is not there.
abbrev pub IsLinked : Database → ℕ → Type 0
IsLinked db t = get_tunnel db t ≡ none → count (on_tunnel t) db.chains ≡ 0

-- A tunnel without links has a good shape, whatever its row says.
empty-IsCounted :
    (db : Database) (t : ℕ) → count (on_tunnel t) db.chains ≡ 0 → IsCounted db t db.chains
empty-IsCounted db t empty = (
  omega (arith, empty, count-le (in_on t) (on_tunnel t) (λ c h. ground arith) db.chains),
  λ row found tls. (
    omega (arith, empty, count-le (out_on t) (on_tunnel t) (λ c h. ground arith) db.chains),
    omega (arith, empty, count-le (plain_on t) (on_tunnel t) (λ c h. ground arith) db.chains),
  ),
)

-- Tunnels whose TLS is on only where it was on before.
retabled :
    (db : Database) (tunnels : List TunnelRow) (t : ℕ) (rows : List Chain)
    → ((row : TunnelRow)
        → find? (λ (row : TunnelRow). row.id == t) tunnels ≡ some row
        → row.tls_enabled ≡ true
        → (old : TunnelRow) × (get_tunnel db t ≡ some old) × (old.tls_enabled ≡ true))
    → IsCounted db t rows
    → IsCounted (record db { tunnels = tunnels }) t rows
retabled db tunnels t rows before h = (
  h.0,
  λ row found tls. let (old, there, tls_before) = before row found tls in h.1 old there tls_before,
)

module _ (input : CreateTunnelInput) (id : ℕ) (user_token pass_token now : Text)
    (db : Database) where
  unfoldable pub inserted : Database
  inserted = record db {
    tunnels = db.tunnels ++ created_tunnel input id user_token pass_token now ∷ [];
  }

  pub inserted-IsShaped :
      get_tunnel db id ≡ none
      → IsLinked db id
      → ((t : ℕ) → IsShaped db t)
      → (t : ℕ) → IsShaped inserted t
  unfolding created_tunnel inserted
  inserted-IsShaped fresh linked h t =
      let row = created_tunnel input id user_token pass_token now in
      (IsShaped-iff inserted t).1 (elim (Bool-cases (id == t)) [
        | inl same ↦
            empty-IsCounted inserted t
              (subst (λ t. count (on_tunnel t) db.chains ≡ 0) ((==_iff id t).0 same) (linked fresh))
        | inr other ↦
            retabled db inserted.tunnels t db.chains
              (λ row' found tls. elim (Option-cases (get_tunnel db t)) [
                | inl missing ↦
                    let e : find? (λ (row : TunnelRow). row.id == t) inserted.tunnels ≡ none =
                      find-append (λ (row : TunnelRow). row.id == t) db.tunnels row
                      ∙ rw (missing, other) refl in
                    absurd (ground (arith, sym e ∙ found))
                | inr (old, there) ↦
                    let e : find? (λ (row : TunnelRow). row.id == t) inserted.tunnels ≡ some old =
                      find-append (λ (row : TunnelRow). row.id == t) db.tunnels row
                      ∙ rw there refl in
                    let same : some old ≡ some row' = sym e ∙ found in (row', there ∙ same, tls)
              ])
              ((IsShaped-iff db t).0 (h t))
      ])

-- What the enablement of TLS lets through.
validate_tunnel_mode-none :
    (db : Database) (t : ℕ)
    → validate_tunnel_mode db t true ≡ none
    → ((tunnel_shape db t).total ≡ 0) ⊎ (tls_shape_problem (tunnel_shape db t) ≡ none)
unfolding validate_tunnel_mode
validate_tunnel_mode-none db t h = elim (Option-cases (get_tunnel db t)) [
  | inl missing ↦ absurd (ground (arith, missing))
  | inr (row, found) ↦ elim (Bool-cases ((tunnel_shape db t).total == 0)) [
    | inl empty ↦ inl ((==_iff (tunnel_shape db t).total 0).0 empty)
    | inr some_link ↦ elim (Option-cases (tls_shape_problem (tunnel_shape db t))) [
      | inl fine ↦ inr fine
      | inr (problem, bad) ↦
          let e : some problem ≡ none =
            rw (← h, validate_tunnel_mode, found, some_link, bad) refl in
          absurd (ground (arith, e))
    ]
  ]
]

module _ (id : ℕ) (input : UpdateTunnelInput) (now : Text) (db : Database) where
  unfoldable pub retuned : Database
  retuned = record db { tunnels = map (update_tunnel_row id input now) db.tunnels }

  -- Where TLS is on, it was on before, or the update turned it on.
  turned_on :
      (t : ℕ) (row : TunnelRow)
      → get_tunnel retuned t ≡ some row
      → row.tls_enabled ≡ true
      → ((old : TunnelRow) × (get_tunnel db t ≡ some old) × (old.tls_enabled ≡ true))
        ⊎ ((id ≡ t) × (input.tls_enabled ≡ some true))
  unfolding retuned
  turned_on t row found tls =
      let key : TunnelRow → Bool = λ row. row.id == t in
      let e = find-map key (update_tunnel_row id input now) (λ row. ground arith) db.tunnels in
      elim (Option-cases (get_tunnel db t)) [
        | inl missing ↦
            let e' : find? key retuned.tunnels ≡ none = e ∙ rw missing refl in
            absurd (ground (arith, sym e' ∙ found))
        | inr (old, there) ↦
            let e' : find? key retuned.tunnels ≡ some (update_tunnel_row id input now old) =
              e ∙ rw there refl in
            let same : some (update_tunnel_row id input now old) ≡ some row = sym e' ∙ found in
            let row_is : update_tunnel_row id input now old ≡ row = grind (arith, same) in
            let key_is = (==_iff old.id t).0 (find_sound key db.tunnels there) in
            elim (Bool-cases (old.id == id)) [
              | inr other ↦
                  let kept : old ≡ row = rw (← row_is, other) refl in inl (old, there, rw kept tls)
              | inl here ↦
                  let on : patched input.tls_enabled old.tls_enabled ≡ true =
                    rw (← tls, ← row_is, here) refl in
                  let at : id ≡ t = sym ((==_iff old.id id).0 here) ∙ key_is in
                  elim (Option-cases input.tls_enabled) [
                    | inl left_out ↦ inl (old, there, rw (← on, left_out) refl)
                    | inr (flag, given) ↦
                        let flag_is : flag ≡ true = rw (← on, given) refl in
                        inr (at, given ∙ ap some flag_is)
                  ]
            ]
      ]

  pub retuned-IsShaped :
      mode_problem db id input ≡ none → ((t : ℕ) → IsShaped db t) → (t : ℕ) → IsShaped retuned t
  unfolding mode_problem retuned tunnel_shape
  retuned-IsShaped valid h t = (
    (h t).0,
    λ row found tls. elim (turned_on t row found tls) [
      | inl (old, there, before) ↦ (h t).1 old there before
      | inr (at, on) ↦
          let ok : validate_tunnel_mode db t true ≡ none =
            rw (← valid, mode_problem, on, at) refl in
          elim (validate_tunnel_mode-none db t ok) [
            | inr fine ↦ fine
            | inl empty ↦
                let none_on = sym (length-filter (on_tunnel t) db.chains) ∙ empty in
                ((IsShaped-iff retuned t).1 (empty-IsCounted retuned t none_on)).1 row found tls
          ]
    ],
  )

pub without_tunnel-IsShaped :
    (id : ℕ) (db : Database) (t : ℕ) → IsShaped db t → IsShaped (without_tunnel id db) t
unfolding without_tunnel
without_tunnel-IsShaped id db t h =
    let key : TunnelRow → Bool = λ row. row.id == t in
    let keep : TunnelRow → Bool = λ row. not (row.id == id) in
    let keep_link : Chain → Bool = λ c. not (on_tunnel id c) in
    let left = filter keep db.tunnels in
    let fewer = fewer-IsShaped db keep_link t h in
    (IsShaped-iff (without_tunnel id db) t).1 (
      retabled db left t (filter keep_link db.chains)
        (λ row found tls. elim (Bool-cases (t == id)) [
          | inl same ↦
              let e : find? key left ≡ none =
                find-filter-none key keep (λ row k. rw ((==_iff row.id t).0 k, same) refl)
                  db.tunnels in
              absurd (ground (arith, sym e ∙ found))
          | inr other ↦
              let e =
                find-filter key keep (λ row k. rw ((==_iff row.id t).0 k, other) refl) db.tunnels in
              (row, sym e ∙ found, tls)
        ])
        ((IsShaped-iff (record db { chains = filter keep_link db.chains }) t).0 fewer))
