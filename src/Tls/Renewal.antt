-- ===== src/Tls/Renewal.antt =====
-- What the daily renewal keeps and what it guarantees.
use tyz.Prelude.{
  not, ◌==◌, text_eq, ==_iff, ◌↔◌, ℕ, ◌≡◌, refl, ◌∙◌, Bool, true, false, Option, none, some, inl,
  inr, List, [], ◌∷◌, Text, map, arith, if◌then◌else◌, find?, Option-cases, Bool-cases,
}
use tyz.Js.Text.{codes}
use tyz.Db.Statements.{upsert}
use tyz.Db.{SettingRow, Database, MaterialRow, MaterialKind, server, client, ca}
use tyz.Tls.{
  find_setting, same_setting, merge_setting, Issuer, TlsProfile, get_tls_domain, kind_beq, material,
  has_material, persist_profile_keys, put_setting, resolve_tls_profile,
}
use tyz.Tls.Issues.{ensure_tls_material-some, IsIssuer, HasAll, HasAll-insert_fresh}
use tyz.Tls.Admin.{
  DomainResult, set_tls_domain, save_domain, keep_material, expires_within, renew_leaf, renew_rows,
  renew_tls_material,
}

-- A row-wise change that keeps kinds keeps what kinds there are.
has-map :
    (f : MaterialRow → MaterialRow) (rows : List MaterialRow) (k : MaterialKind)
    → ((row : MaterialRow) → (f row).kind ≡ row.kind)
    → elim (find? (λ (row : MaterialRow). kind_beq row.kind k) (map f rows)) [
      | none ↦ false
      | some _ ↦ true
    ]
      ≡ elim (find? (λ (row : MaterialRow). kind_beq row.kind k) rows) [
        | none ↦ false
        | some _ ↦ true
      ]
has-map f [] k keeps = refl
has-map f (row ∷ rows) k keeps = ground (arith, has-map f rows k keeps, keeps row)

abbrev renewed : MaterialRow → MaterialRow → MaterialRow → MaterialRow
renewed row leaf old =
    if kind_beq old.kind row.kind
    then record old {
      cert_pem = leaf.cert_pem;
      key_pem = leaf.key_pem;
      not_after = leaf.not_after;
      updated_at = leaf.updated_at;
    }
    else old

kinds : (row leaf old : MaterialRow) → (renewed row leaf old).kind ≡ old.kind
kinds row leaf old = ground arith

module _ (issuer : Issuer) (is_issuer : IsIssuer issuer) (parse_date : Text → ℕ) (now_ms : ℕ) where
  HasAll-renew_leaf :
      (domain : Text) (profile : TlsProfile) (ca_row row : MaterialRow) (state : Bool × Database)
      → HasAll state.1
      → HasAll (renew_leaf issuer parse_date now_ms domain profile ca_row row state).1
  unfolding renew_leaf
  HasAll-renew_leaf domain profile ca_row row (changed, db) h k =
      elim (Bool-cases (expires_within issuer parse_date now_ms 30 row.not_after)) [
        | inl e ↦ rw e (
            has-map (renewed row (issuer.issue_leaf row.kind domain profile ca_row)) db.tls_material
              k (kinds row (issuer.issue_leaf row.kind domain profile ca_row))
            ∙ h k)
        | inr e ↦ rw e (h k)
      ]

  HasAll-renew_rows :
      (domain now : Text) (db : Database) (a b c : Option MaterialRow)
      → HasAll db
      → HasAll (renew_rows issuer parse_date now_ms domain now db a b c).1
  unfolding renew_rows persist_profile_keys put_setting
  HasAll-renew_rows domain now db (some a) (some b) (some c) h k =
      let profile = resolve_tls_profile db (some domain) true in
      elim (Bool-cases (expires_within issuer parse_date now_ms 90 a.not_after)) [
        | inl e ↦ rw e (
            HasAll-insert_fresh issuer is_issuer domain profile (keep_material (λ kind. false) db)
              k)
        | inr e ↦ rw e (
            HasAll-renew_leaf domain profile a c
              (renew_leaf issuer parse_date now_ms domain profile a b (false, db))
              (HasAll-renew_leaf domain profile a b (false, db) h) k)
      ]
  HasAll-renew_rows domain now db none b c h k = h k
  HasAll-renew_rows domain now db (some a) none c h k = h k
  HasAll-renew_rows domain now db (some a) (some b) none h k = h k

  -- With an issuer whose rows are of the kind asked for, the daily renewal of a complete set of
  -- material, whatever of it is near its end, leaves a complete set.
  pub renew_tls_material-HasAll :
      (db : Database) (now : Text)
      → HasAll db
      → HasAll (renew_tls_material issuer parse_date now_ms db now).1
  unfolding renew_tls_material
  renew_tls_material-HasAll db now h = elim (Option-cases (get_tls_domain db)) [
    | inl e ↦ rw (renew_tls_material, e) h
    | inr ([], e) ↦ rw (renew_tls_material, e) h
    | inr (c ∷ domain, e) ↦
        rw (renew_tls_material, e)
          (HasAll-renew_rows (c ∷ domain) now db (material db ca) (material db server)
            (material db client) h)
  ]

-- The setting that was just put is found.
find-put :
    (rows : List SettingRow) (row : SettingRow)
    → find_setting (upsert same_setting merge_setting rows row) row.key ≡ some row.value
unfolding find_setting upsert same_setting merge_setting
find-put [] row = ground (arith, ==_iff row.key row.key)
find-put (old ∷ rows) row = ground (arith, find-put rows row)

module _ (issuer : Issuer) (is_issuer : IsIssuer issuer) where
  save_domain-some :
      (db : Database) (now : Text) (c : ℕ) (domain : Text)
      → (r : DomainResult) × ((save_domain issuer (c ∷ domain) now db).0 ≡ some r)
        × (r.changed ≡ true)
  unfolding save_domain get_tls_domain put_setting
  save_domain-some db now c domain =
      let saved =
        keep_material (λ kind. not (kind_beq kind server))
          (put_setting now (codes "tls_domain") (c ∷ domain) db) in
      let row : SettingRow = record {
        key = codes "tls_domain";
        value = c ∷ domain;
        updated_at = now;
      } in
      let (m, issued, sni) =
        ensure_tls_material-some issuer is_issuer saved now c domain
          (find-put db.app_settings row) in
      (
        record { changed = true; issued = not (has_material saved ca) },
        rw (save_domain, issued) refl,
        refl,
      )

  -- Saving a domain that is not empty always succeeds, with an issuer whose rows are of the kind
  -- asked for: it reports a change exactly if the domain was another one or none.
  pub set_tls_domain-some :
      (db : Database) (now : Text) (c : ℕ) (domain : Text)
      → (r : DomainResult) × ((set_tls_domain issuer db (c ∷ domain) now).0 ≡ some r)
        × ((r.changed ≡ false) ↔ (get_tls_domain db ≡ some (c ∷ domain)))
  unfolding set_tls_domain
  set_tls_domain-some db now c domain =
      let (r, saved, changed) = save_domain-some db now c domain in
      elim (Option-cases (get_tls_domain db)) [
        | inl e ↦ (
          r,
          rw (set_tls_domain, e) saved,
          (λ h. absurd (ground arith), λ h. absurd (ground arith)),
        )
        | inr (old, e) ↦ elim (Bool-cases (old == (c ∷ domain))) [
          | inl same ↦
              let equal : old ≡ c ∷ domain = (==_iff old (c ∷ domain)).0 same in
              (
                record { changed = false; issued = false },
                rw (set_tls_domain, e, same) refl,
                (λ h. rw (e, equal) refl, λ h. refl),
              )
          | inr other ↦ (
            r,
            rw (set_tls_domain, e, other) saved,
            (λ h. absurd (ground arith), λ h. absurd (ground (arith, ==_iff old (c ∷ domain)))),
          )
        ]
      ]
