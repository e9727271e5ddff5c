-- ===== src/Admin/Readdressed.antt =====
-- apps/server/src/routes/admin.ts: an endpoint that moves takes the rules that name it along.
use tyz.Prelude.{
  ℕ, ◌≡◌, refl, sym, ◌∙◌, ap, Bool, true, false, not, Option, none, some, List, Text, map, find?,
  arith, ◌==◌, ==_iff, nat_eq, text_eq, Bool-cases, inl, inr, All-map, All-imp, ◌||◌, StrictEq,
}
use tyz.Entities.{Endpoint, RelayRule}
use tyz.Db.{Database}
use tyz.Db.Counting.{count-map}
use tyz.Db.Finding.{find_sound, find-map}
use tyz.Realm.{endpoint_address}
use tyz.Admin.{patched}
use tyz.Admin.Endpoints.{
  UpdateEndpointInput, get_endpoint, references, patched_endpoint, update_endpoint_row,
  moves_address, retarget, save_endpoint,
}
use tyz.Admin.Addressed.{IsOnTarget, IsAddressed}

same_value {ℓ} :
    {K : Type ℓ} ⦃by : StrictEq K⦄ (given : Option K) (old : K)
    → elim given [ none ↦ false | some new ↦ not (new == old) ] ≡ false
    → patched given old ≡ old
same_value none old h = refl
same_value (some new) old h = elim (Bool-cases (new == old)) [
  | inl same ↦ (==_iff new old).0 same
  | inr other ↦ absurd (ground (arith, h, other))
]

neither : (a b : Bool) → (a || b) ≡ false → (a ≡ false) × (b ≡ false)
neither false b h = (refl, h)
neither true b h = absurd (ground (arith, h))

-- An update that gives neither a new host nor a new port keeps the address.
unmoved :
    (input : UpdateEndpointInput) (existing : Endpoint)
    → moves_address input existing ≡ false
    → (patched input.host existing.host ≡ existing.host)
      × (patched input.port existing.port ≡ existing.port)
unmoved input existing h =
    let both = neither _ _ h in
    (same_value input.host existing.host both.0, same_value input.port existing.port both.1)

module _ (id : ℕ) (input : UpdateEndpointInput) (existing : Endpoint) (now : Text) (db : Database)
    (found : get_endpoint db id ≡ some existing) where
  updated_endpoints : List Endpoint
  updated_endpoints = map (update_endpoint_row id input now) db.endpoints

  find-updated :
      (key : ℕ) (e : Endpoint)
      → get_endpoint db key ≡ some e
      → find? (λ (e : Endpoint). e.id == key) updated_endpoints
        ≡ some (update_endpoint_row id input now e)
  unfolding updated_endpoints
  find-updated key e there =
      find-map (λ (e : Endpoint). e.id == key) (update_endpoint_row id input now)
        (λ e. ground arith) db.endpoints
      ∙ rw there refl

  -- The endpoint itself, after the update.
  find-patched :
      find? (λ (e : Endpoint). e.id == id) updated_endpoints
      ≡ some (patched_endpoint input now existing)
  find-patched =
      find-updated id existing found
      ∙ rw (find_sound (λ (e : Endpoint). e.id == id) db.endpoints found) refl

  -- Another endpoint is as it was.
  elsewhere-IsOnTarget :
      (r : RelayRule)
      → references id r ≡ false
      → IsOnTarget db.endpoints r
      → IsOnTarget updated_endpoints r
  elsewhere-IsOnTarget r other on key named =
      let (e, there, same) = on key named in
      let key_is =
        (==_iff e.id key).0 (find_sound (λ (e : Endpoint). e.id == key) db.endpoints there) in
      let off : (key == id) ≡ false = rw (← other, named) refl in
      (e, find-updated key e there ∙ rw (key_is, off) refl, same)

  -- The endpoint itself, where the update keeps its address.
  still-IsOnTarget :
      (r : RelayRule)
      → references id r ≡ true
      → moves_address input existing ≡ false
      → IsOnTarget db.endpoints r
      → IsOnTarget updated_endpoints r
  still-IsOnTarget r refers still on key named =
      let here : key ≡ id = (==_iff key id).0 (rw (← refers, named) refl) in
      let (e, there, same) = on key named in
      let e_is : some existing ≡ some e = sym found ∙ sym (ap (get_endpoint db) here) ∙ there in
      let old : existing ≡ e = grind (arith, e_is) in
      let kept = unmoved input existing still in
      (
        patched_endpoint input now existing,
        rw here find-patched,
        same ∙ rw (kept.0, kept.1, old) refl,
      )

  pub saved-IsAddressed : IsAddressed db → IsAddressed (save_endpoint id input existing now db).0
  unfolding save_endpoint updated_endpoints
  saved-IsAddressed h =
      let row = patched_endpoint input now existing in
      let address = endpoint_address row.host row.port in
      elim (Bool-cases (moves_address input existing)) [
        | inl moved ↦
            rw (save_endpoint, moved)
              (record {
                keyed = λ key.
                    rw
                      (count-map (λ (r : RelayRule). r.id == key) (retarget id address now)
                        (λ r. ground arith) db.relay_rules)
                      (h.keyed key);
                on_target =
                    All-map (IsOnTarget updated_endpoints) (retarget id address now) db.relay_rules
                      (All-imp _ _
                        (λ r on. elim (Bool-cases (references id r)) [
                          | inr other ↦ rw other (elsewhere-IsOnTarget r other on)
                          | inl refers ↦ rw refers (λ key named.
                              let here : (key == id) ≡ true = rw (← refers, named) refl in
                              (row, rw ((==_iff key id).0 here) find-patched, refl))
                        ])
                        db.relay_rules h.on_target);
              })
        | inr still ↦
            rw (save_endpoint, still)
              (record {
                keyed = h.keyed;
                on_target =
                    All-imp (IsOnTarget db.endpoints) (IsOnTarget updated_endpoints)
                      (λ r on. elim (Bool-cases (references id r)) [
                        | inr other ↦ elsewhere-IsOnTarget r other on
                        | inl refers ↦ still-IsOnTarget r refers still on
                      ])
                      db.relay_rules h.on_target;
              })
      ]
