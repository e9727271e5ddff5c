-- ===== src/Tls/Keeps.antt =====
-- Issuing TLS material writes the material and the settings, and no node's config snapshot.
use tyz.Prelude.{◌≡◌, refl, ◌∙◌, true, false, some, inl, inr, [], ◌∷◌, Text, arith, Option-cases}
use tyz.Db.{Database, MaterialRow, MaterialKind, server, client, ca}
use tyz.Tls.{
  Issuer, TlsProfile, get_tls_domain, persist_profile_keys, put_setting, material,
  insert_material_if_absent, complete_material, insert_fresh, insert_leaf, ensure_for_domain,
  ensure_tls_material, resolve_tls_profile,
}

insert-keeps :
    (db : Database) (row : MaterialRow)
    → (insert_material_if_absent db row).node_configs ≡ db.node_configs
unfolding insert_material_if_absent
insert-keeps db row = ground arith

module _ (issuer : Issuer) where
  insert_leaf-keeps :
      (domain : Text) (profile : TlsProfile) (ca_row : MaterialRow) (kind : MaterialKind)
      (db : Database)
      → (insert_leaf issuer domain profile ca_row kind db).node_configs ≡ db.node_configs
  unfolding insert_leaf
  insert_leaf-keeps domain profile ca_row kind db =
      ground (arith, insert-keeps db (issuer.issue_leaf kind domain profile ca_row))

  insert_fresh-keeps :
      (domain : Text) (profile : TlsProfile) (db : Database)
      → (insert_fresh issuer domain profile db).node_configs ≡ db.node_configs
  unfolding insert_fresh
  insert_fresh-keeps domain profile db =
      let ca_row = issuer.generate_ca domain profile in
      let one = insert_material_if_absent db ca_row in
      let two = insert_material_if_absent one (issuer.issue_leaf server domain profile ca_row) in
      insert-keeps two (issuer.issue_leaf client domain profile ca_row)
      ∙ insert-keeps one (issuer.issue_leaf server domain profile ca_row)
      ∙ insert-keeps db ca_row

  complete_material-keeps :
      (domain : Text) (profile : TlsProfile) (db : Database)
      → (complete_material issuer domain profile db).node_configs ≡ db.node_configs
  unfolding complete_material
  complete_material-keeps domain profile db = elim (Option-cases (material db ca)) [
    | inl e ↦ ground (arith, insert_fresh-keeps domain profile db)
    | inr (ca_row, e) ↦ ground (
      arith,
      insert_leaf-keeps domain profile ca_row client
          (insert_leaf issuer domain profile ca_row server db),
      insert_leaf-keeps domain profile ca_row server db,
    )
  ]

  ensure_for_domain-keeps :
      (domain now : Text) (db : Database)
      → (ensure_for_domain issuer domain now db).1.node_configs ≡ db.node_configs
  unfolding ensure_for_domain persist_profile_keys put_setting
  ensure_for_domain-keeps domain now db =
      let profile =
        resolve_tls_profile db (some domain) (elim db.tls_material [ [] ↦ false | _ ∷ _ ↦ true ]) in
      ground (arith, complete_material-keeps domain profile db)

  pub ensure_tls_material-keeps :
      (db : Database) (now : Text)
      → (ensure_tls_material issuer db now).1.node_configs ≡ db.node_configs
  unfolding ensure_tls_material
  ensure_tls_material-keeps db now = elim (Option-cases (get_tls_domain db)) [
    | inl e ↦ rw (ensure_tls_material, e) refl
    | inr ([], e) ↦ rw (ensure_tls_material, e) refl
    | inr (c ∷ domain, e) ↦
        rw (ensure_tls_material, e) (ensure_for_domain-keeps (c ∷ domain) now db)
  ]
