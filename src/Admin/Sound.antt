-- ===== src/Admin/Sound.antt =====
-- apps/server/src/routes/admin.ts: the writes of tunnels and links as steps from one database to
-- the next, and what holds after any number of them.
use tyz.Prelude.{
  ℕ, ◌≤◌, ◌≡◌, refl, sym, ◌∙◌, subst, Bool, false, not, ◌&&◌, none, some, List, [], ◌∷◌, Text,
  find?, arith, ◌==◌, ==_iff, nat_eq, Bool-cases, inl, inr, ◌≢◌, ap,
}
use tyz.Entities.{Chain}
use tyz.Db.{Database, TunnelRow}
use tyz.Db.Counting.{
  bit, count, count-append, count-update, count-filter-le, count-filter, count-none,
}
use tyz.Db.Finding.{find-filter, find-append-none, find-map-none}
use tyz.Admin.{patched}
use tyz.Admin.Shape.{get_tunnel, on_tunnel, TunnelShape, validate_projected_shape}
use tyz.Admin.Counts.{IsShaped}
use tyz.Admin.Chains.{
  CreateChainInput, UpdateChainInput, created_chain, create_chain, patched_chain, update_chain,
  get_chain, delete_chain,
}
use tyz.Admin.Tunnels.{
  CreateTunnelInput, UpdateTunnelInput, created_tunnel, create_tunnel, update_tunnel_row,
  update_tunnel, without_tunnel, delete_tunnel,
}
use tyz.Admin.Outcomes.{
  create_chain-outcome, update_chain-outcome, delete_chain-outcome, create_tunnel-outcome,
  update_tunnel-outcome, delete_tunnel-outcome,
}
use tyz.Admin.Shaped.{created-IsShaped}
use tyz.Admin.Moved.{updated-IsShaped, fewer-IsShaped}
use tyz.Admin.Retuned.{
  IsLinked, inserted-IsShaped, retuned-IsShaped, without_tunnel-IsShaped, inserted, retuned,
}

-- A request whose payload zod accepts; D1 gives a new row an id that no row has.
pub data Write (db : Database) : Database → Type 0 where
  create_link :
      (input : CreateChainInput) (id : ℕ) (now : Text)
      → get_chain db id ≡ none
      → Write db (create_chain (some input) id now db).db
  change_link :
      (id : ℕ) (input : UpdateChainInput) (now : Text)
      → Write db (update_chain id (some input) now db).db
  remove_link : (id : ℕ) → Write db (delete_chain id db).db
  open_tunnel :
      (input : CreateTunnelInput) (id : ℕ) (user_token pass_token now : Text)
      → get_tunnel db id ≡ none
      → Write db (create_tunnel (some input) id user_token pass_token now db).db
  change_tunnel :
      (id : ℕ) (input : UpdateTunnelInput) (now : Text)
      → Write db (update_tunnel id (some input) now db).db
  close_tunnel : (id : ℕ) → Write db (delete_tunnel id db).db

pub data Writes (db : Database) : Database → Type 0 where
  untouched : Writes db db
  then_write : (mid : Database) {next : Database} → Writes db mid → Write mid next → Writes db next

-- Every tunnel has a good shape, every link its own id, and every link its tunnel.
pub record IsSound (db : Database) : Type 0 where
  pub shaped : (t : ℕ) → IsShaped db t
  pub keyed : (id : ℕ) → count (λ (c : Chain). c.id == id) db.chains ≤ 1
  pub linked : (t : ℕ) → IsLinked db t

fresh-count :
    (rows : List Chain) (id : ℕ)
    → find? (λ (c : Chain). c.id == id) rows ≡ none
    → count (λ (c : Chain). c.id == id) rows ≡ 0
fresh-count [] id h = refl
fresh-count (c ∷ rows) id h = ground (arith, fresh-count rows id)

-- A tunnel that a write was let onto is there.
validated_tunnel :
    (db : Database) (t : ℕ) (s : TunnelShape)
    → validate_projected_shape db t s ≡ none
    → get_tunnel db t ≢ none
unfolding validate_projected_shape
validated_tunnel db t s h missing = ground (arith, missing)

created-IsSound :
    (input : CreateChainInput) (id : ℕ) (now : Text) (db : Database)
    → get_chain db id ≡ none
    → IsSound db
    → IsSound (create_chain (some input) id now db).db
unfolding created_chain
created-IsSound input id now db fresh h =
    let link = created_chain input id now ∷ [] in
    elim (create_chain-outcome input id now db) [
      | inl same ↦ subst IsSound (sym same) h
      | inr (valid, saved) ↦ subst IsSound (sym saved) (record {
        shaped = created-IsShaped db input id now h.shaped valid;
        keyed = λ key.
            rw (count-append (λ (c : Chain). c.id == key) db.chains link)
              (ground (arith, h.keyed key, fresh-count db.chains id fresh, ==_iff id key));
        linked = λ t missing.
            let off : (input.tunnel_id == t) ≡ false = elim (Bool-cases (input.tunnel_id == t)) [
              | inr other ↦ other
              | inl here ↦ absurd (
                  validated_tunnel db input.tunnel_id _ valid
                    (ap (get_tunnel db) ((==_iff input.tunnel_id t).0 here) ∙ missing))
            ] in
            rw (count-append (on_tunnel t) db.chains link, off) (omega (arith, h.linked t missing));
      })
    ]

updated-IsSound :
    (id : ℕ) (input : UpdateChainInput) (now : Text) (db : Database)
    → IsSound db
    → IsSound (update_chain id (some input) now db).db
unfolding patched_chain
updated-IsSound id input now db h = elim (update_chain-outcome id input now db) [
  | inl same ↦ subst IsSound (sym same) h
  | inr (existing, found, valid, saved) ↦
      let target = patched input.tunnel_id existing.tunnel_id in
      let after = λ (p : Chain → Bool).
        count-update p (λ (c : Chain). c.id == id) (patched_chain input now) db.chains existing
          found (h.keyed id) in
      subst IsSound (sym saved) (record {
        shaped = updated-IsShaped db id input now existing found (h.keyed id) h.shaped valid;
        keyed = λ key. omega (arith, h.keyed key, after (λ (c : Chain). c.id == key));
        linked = λ t missing.
            let off : (target == t) ≡ false = elim (Bool-cases (target == t)) [
              | inr other ↦ other
              | inl here ↦ absurd (
                  validated_tunnel db target _ valid
                    (ap (get_tunnel db) ((==_iff target t).0 here) ∙ missing))
            ] in
            let off_bit : bit (on_tunnel t (patched_chain input now existing)) ≡ 0 = rw off refl in
            omega (arith, h.linked t missing, after (on_tunnel t), off_bit);
      })
]

deleted-IsSound : (id : ℕ) (db : Database) → IsSound db → IsSound (delete_chain id db).db
deleted-IsSound id db h =
    let keep : Chain → Bool = λ c. not (c.id == id) in
    elim (delete_chain-outcome id db) [
      | inl same ↦ subst IsSound (sym same) h
      | inr saved ↦ subst IsSound (sym saved) (record {
        shaped = λ t. fewer-IsShaped db keep t (h.shaped t);
        keyed = λ key.
            omega (arith, h.keyed key, count-filter-le (λ (c : Chain). c.id == key) keep db.chains);
        linked = λ t missing.
            omega (arith, h.linked t missing, count-filter-le (on_tunnel t) keep db.chains);
      })
    ]

opened-IsSound :
    (input : CreateTunnelInput) (id : ℕ) (user_token pass_token now : Text) (db : Database)
    → get_tunnel db id ≡ none
    → IsSound db
    → IsSound (create_tunnel (some input) id user_token pass_token now db).db
unfolding inserted
opened-IsSound input id user_token pass_token now db fresh h =
    elim (create_tunnel-outcome input id user_token pass_token now db) [
      | inl same ↦ subst IsSound (sym same) h
      | inr saved ↦ subst IsSound (sym saved) (record {
        shaped =
            inserted-IsShaped input id user_token pass_token now db fresh (h.linked id) h.shaped;
        keyed = h.keyed;
        linked = λ t missing. h.linked t (
            find-append-none (λ (row : TunnelRow). row.id == t) db.tunnels
              (created_tunnel input id user_token pass_token now) missing);
      })
    ]

retuned-IsSound :
    (id : ℕ) (input : UpdateTunnelInput) (now : Text) (db : Database)
    → IsSound db
    → IsSound (update_tunnel id (some input) now db).db
unfolding retuned
retuned-IsSound id input now db h = elim (update_tunnel-outcome id input now db) [
  | inl same ↦ subst IsSound (sym same) h
  | inr (valid, saved) ↦ subst IsSound (sym saved) (record {
    shaped = retuned-IsShaped id input now db valid h.shaped;
    keyed = h.keyed;
    linked = λ t missing. h.linked t (
        find-map-none (λ (row : TunnelRow). row.id == t) (update_tunnel_row id input now)
          (λ row. ground arith) db.tunnels missing);
  })
]

closed-IsSound : (id : ℕ) (db : Database) → IsSound db → IsSound (delete_tunnel id db).db
unfolding without_tunnel
closed-IsSound id db h =
    let keep : Chain → Bool = λ c. not (on_tunnel id c) in
    elim (delete_tunnel-outcome id db) [
      | inl same ↦ subst IsSound (sym same) h
      | inr saved ↦ subst IsSound (sym saved) (record {
        shaped = λ t. without_tunnel-IsShaped id db t (h.shaped t);
        keyed = λ key.
            omega (arith, h.keyed key, count-filter-le (λ (c : Chain). c.id == key) keep db.chains);
        linked = λ t missing. elim (Bool-cases (id == t)) [
          | inl same ↦
              count-filter (on_tunnel t) keep db.chains
              ∙ count-none (λ c. keep c && on_tunnel t c)
                  (λ c. rw ((==_iff id t).0 same) (ground arith)) db.chains
          | inr other ↦
              let key : TunnelRow → Bool = λ row. row.id == t in
              let there =
                find-filter key (λ row. not (row.id == id)) (λ row k. ground arith) db.tunnels in
              omega (
                arith,
                h.linked t (sym there ∙ missing),
                count-filter-le (on_tunnel t) keep db.chains,
              )
        ];
      })
    ]

Write-IsSound : {db next : Database} → Write db next → IsSound db → IsSound next
Write-IsSound (create_link input id now fresh) h = created-IsSound input id now _ fresh h
Write-IsSound (change_link id input now) h = updated-IsSound id input now _ h
Write-IsSound (remove_link id) h = deleted-IsSound id _ h
Write-IsSound (open_tunnel input id user_token pass_token now fresh) h =
    opened-IsSound input id user_token pass_token now _ fresh h
Write-IsSound (change_tunnel id input now) h = retuned-IsSound id input now _ h
Write-IsSound (close_tunnel id) h = closed-IsSound id _ h

-- From a database where every tunnel passes the code's own shape check, every link has its own id
-- and stands on a tunnel that is there, any sequence of accepted or refused writes of tunnels and
-- links, with new ids that are free, leads to such a database.
pub Writes-IsSound : {db next : Database} → Writes db next → IsSound db → IsSound next
Writes-IsSound untouched h = h
Writes-IsSound (then_write mid before last) h = Write-IsSound last (Writes-IsSound before h)
