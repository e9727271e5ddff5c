-- ===== src/Tls/Issues.antt =====
-- `ensureTlsMaterial` on every stored state: a platform with a domain always gets its material.
use tyz.Prelude.{
  subst, ℕ, ◌≡◌, refl, ◌∙◌, Bool, true, false, ◌&&◌, ◌||◌, none, some, inl, inr, List, [], ◌∷◌,
  ◌++◌, Text, arith, if◌then◌else◌, find?, Option-cases, Bool-cases,
}
use tyz.Entities.{TlsMaterial}
use tyz.Db.{Database, MaterialRow, MaterialKind, server, client, ca}
use tyz.Tls.{
  Issuer, TlsProfile, get_tls_domain, persist_profile_keys, put_setting, kind_beq, material,
  has_material, insert_material_if_absent, complete_material, insert_fresh, insert_leaf,
  read_material, ensure_for_domain, ensure_tls_material, resolve_tls_profile,
}

kind_beq_self : (k : MaterialKind) → kind_beq k k ≡ true
kind_beq_self ca = refl
kind_beq_self server = refl
kind_beq_self client = refl

abbrev has_kind : List MaterialRow → MaterialKind → Bool
has_kind rows k = elim (find? (λ (row : MaterialRow). kind_beq row.kind k) rows) [
  | none ↦ false
  | some _ ↦ true
]

has_kind-append :
    (rows : List MaterialRow) (row : MaterialRow) (k : MaterialKind)
    → has_kind (rows ++ row ∷ []) k ≡ (has_kind rows k || kind_beq row.kind k)
has_kind-append [] row k = ground arith
has_kind-append (old ∷ rows) row k = ground (arith, has_kind-append rows row k)

kind_beq-eq : (a b : MaterialKind) → kind_beq a b ≡ true → a ≡ b
kind_beq-eq ca ca h = refl
kind_beq-eq ca server h = ground arith
kind_beq-eq ca client h = ground arith
kind_beq-eq server ca h = ground arith
kind_beq-eq server server h = refl
kind_beq-eq server client h = ground arith
kind_beq-eq client ca h = ground arith
kind_beq-eq client server h = ground arith
kind_beq-eq client client h = refl

-- What was there stays, and the row's kind is there.
has-insert :
    (db : Database) (row : MaterialRow) (k : MaterialKind)
    → (has_material db k || kind_beq row.kind k) ≡ true
    → has_material (insert_material_if_absent db row) k ≡ true
unfolding insert_material_if_absent
has-insert db row k h = elim (Bool-cases (has_material db row.kind)) [
  | inl there ↦ rw there (elim (Bool-cases (kind_beq row.kind k)) [
    | inl same ↦ subst (λ j. has_material db j ≡ true) (kind_beq-eq row.kind k same) there
    | inr other ↦ ground arith
  ])
  | inr missing ↦ rw missing (has_kind-append db.tls_material row k ∙ h)
]

-- The platform's own code signs rows of the kind that it is asked for.
abbrev pub IsIssuer : Issuer → Type 0
IsIssuer issuer =
    ((domain : Text) (profile : TlsProfile) → (issuer.generate_ca domain profile).kind ≡ ca)
    × ((kind : MaterialKind) (domain : Text) (profile : TlsProfile) (ca_row : MaterialRow)
        → (issuer.issue_leaf kind domain profile ca_row).kind ≡ kind)

has-insert_kept :
    (db : Database) (row : MaterialRow) (k : MaterialKind)
    → has_material db k ≡ true
    → has_material (insert_material_if_absent db row) k ≡ true
has-insert_kept db row k h = has-insert db row k (ground arith)

has-insert_new :
    (db : Database) (row : MaterialRow) (k : MaterialKind)
    → row.kind ≡ k
    → has_material (insert_material_if_absent db row) k ≡ true
has-insert_new db row k h = has-insert db row k (ground (arith, kind_beq_self k))

abbrev pub HasAll : Database → Type 0
HasAll db = (k : MaterialKind) → has_material db k ≡ true

HasAll-insert_rows :
    (db : Database) (a b c : MaterialRow)
    → a.kind ≡ ca
    → b.kind ≡ server
    → c.kind ≡ client
    → HasAll
        (insert_material_if_absent (insert_material_if_absent (insert_material_if_absent db a) b) c)
HasAll-insert_rows db a b c ha hb hc ca =
    let one = insert_material_if_absent db a in
    has-insert_kept (insert_material_if_absent one b) c ca
      (has-insert_kept one b ca (has-insert_new db a ca ha))
HasAll-insert_rows db a b c ha hb hc server =
    let one = insert_material_if_absent db a in
    has-insert_kept (insert_material_if_absent one b) c server (has-insert_new one b server hb)
HasAll-insert_rows db a b c ha hb hc client =
    has-insert_new (insert_material_if_absent (insert_material_if_absent db a) b) c client hc

all_three :
    (db : Database)
    → (has_material db ca && (has_material db server && has_material db client)) ≡ true
    → HasAll db
all_three db h ca = ground arith
all_three db h server = ground arith
all_three db h client = ground arith

module _ (issuer : Issuer) (is_issuer : IsIssuer issuer) where
  has-insert_leaf :
      (domain : Text) (profile : TlsProfile) (ca_row : MaterialRow) (kind k : MaterialKind)
      (db : Database)
      → (has_material db k || kind_beq kind k) ≡ true
      → has_material (insert_leaf issuer domain profile ca_row kind db) k ≡ true
  unfolding insert_leaf
  has-insert_leaf domain profile ca_row kind k db h =
      let leaf = issuer.issue_leaf kind domain profile ca_row in
      let of_kind : leaf.kind ≡ kind = is_issuer.1 kind domain profile ca_row in
      elim (Bool-cases (has_material db kind)) [
        | inl there ↦ rw there (elim (Bool-cases (kind_beq kind k)) [
          | inl same ↦ subst (λ j. has_material db j ≡ true) (kind_beq-eq kind k same) there
          | inr other ↦ ground arith
        ])
        | inr missing ↦ rw missing (has-insert db leaf k (rw of_kind h))
      ]

  leaf_kept :
      (domain : Text) (profile : TlsProfile) (ca_row : MaterialRow) (kind k : MaterialKind)
      (db : Database)
      → has_material db k ≡ true
      → has_material (insert_leaf issuer domain profile ca_row kind db) k ≡ true
  leaf_kept domain profile ca_row kind k db h =
      has-insert_leaf domain profile ca_row kind k db (ground arith)

  leaf_new :
      (domain : Text) (profile : TlsProfile) (ca_row : MaterialRow) (kind : MaterialKind)
      (db : Database)
      → has_material (insert_leaf issuer domain profile ca_row kind db) kind ≡ true
  leaf_new domain profile ca_row kind db =
      has-insert_leaf domain profile ca_row kind kind db (ground (arith, kind_beq_self kind))

  pub HasAll-insert_fresh :
      (domain : Text) (profile : TlsProfile) (db : Database)
      → HasAll (insert_fresh issuer domain profile db)
  unfolding insert_fresh
  HasAll-insert_fresh domain profile db =
      let ca_row = issuer.generate_ca domain profile in
      HasAll-insert_rows db ca_row (issuer.issue_leaf server domain profile ca_row)
        (issuer.issue_leaf client domain profile ca_row) (is_issuer.0 domain profile)
        (is_issuer.1 server domain profile ca_row) (is_issuer.1 client domain profile ca_row)

  HasAll-insert_leaves :
      (domain : Text) (profile : TlsProfile) (ca_row : MaterialRow) (db : Database)
      → has_material db ca ≡ true
      → HasAll (
          insert_leaf issuer domain profile ca_row client
            (insert_leaf issuer domain profile ca_row server db))
  HasAll-insert_leaves domain profile ca_row db h ca =
      leaf_kept domain profile ca_row client ca (insert_leaf issuer domain profile ca_row server db)
        (leaf_kept domain profile ca_row server ca db h)
  HasAll-insert_leaves domain profile ca_row db h server =
      leaf_kept domain profile ca_row client server
        (insert_leaf issuer domain profile ca_row server db)
        (leaf_new domain profile ca_row server db)
  HasAll-insert_leaves domain profile ca_row db h client =
      leaf_new domain profile ca_row client (insert_leaf issuer domain profile ca_row server db)

  HasAll-complete_material :
      (domain : Text) (profile : TlsProfile) (db : Database)
      → HasAll (complete_material issuer domain profile db)
  unfolding complete_material
  HasAll-complete_material domain profile db k = elim (Option-cases (material db ca)) [
    | inl e ↦ rw (complete_material, e) (HasAll-insert_fresh domain profile db k)
    | inr (ca_row, e) ↦
        rw (complete_material, e)
          (HasAll-insert_leaves domain profile ca_row db (rw (has_material, e) refl) k)
  ]

  -- The material that is read back when all three rows are there.
  read_material-some :
      (domain : Text) (db : Database)
      → HasAll db
      → (m : TlsMaterial) × (read_material issuer domain
            (material db ca)
            (material db server)
            (material db client)
          ≡ some m)
        × (m.sni ≡ domain)
  unfolding read_material
  read_material-some domain db all_there = elim (Option-cases (material db ca)) [
    | inl e ↦ absurd (ground (arith, all_there ca))
    | inr (ca_row, e) ↦ elim (Option-cases (material db server)) [
      | inl f ↦ absurd (ground (arith, all_there server))
      | inr (server_row, f) ↦ elim (Option-cases (material db client)) [
        | inl g ↦ absurd (ground (arith, all_there client))
        | inr (client_row, g) ↦ (
          record {
            sni = domain;
            ca_cert = ca_row.cert_pem;
            server_cert = server_row.cert_pem;
            server_key = server_row.key_pem;
            client_cert = client_row.cert_pem;
            client_key = client_row.key_pem;
          },
          rw (e, f, g) refl,
          refl,
        )
      ]
    ]
  ]

  abbrev ensured : Text → Text → Database → Database
  ensured domain now db =
      let profile =
        resolve_tls_profile db (some domain) (elim db.tls_material [ [] ↦ false | _ ∷ _ ↦ true ]) in
      if has_material db ca && (has_material db server && has_material db client)
      then db
      else persist_profile_keys (complete_material issuer domain profile db) profile now

  HasAll-ensured : (domain now : Text) (db : Database) → HasAll (ensured domain now db)
  unfolding persist_profile_keys put_setting
  HasAll-ensured domain now db k =
      let profile =
        resolve_tls_profile db (some domain) (elim db.tls_material [ [] ↦ false | _ ∷ _ ↦ true ]) in
      elim (Bool-cases (has_material db ca && (has_material db server && has_material db client))) [
        | inl e ↦ rw e (all_three db e k)
        | inr e ↦ rw e (HasAll-complete_material domain profile db k)
      ]

  -- On a platform with a domain, and an issuer whose rows are of the kind asked for, TLS material is
  -- always there in the end, whatever part of it was stored before; it is for the domain.
  pub ensure_tls_material-some :
      (db : Database) (now : Text) (c : ℕ) (domain : Text)
      → get_tls_domain db ≡ some (c ∷ domain)
      → (m : TlsMaterial) × ((ensure_tls_material issuer db now).0 ≡ some m) × (m.sni ≡ c ∷ domain)
  unfolding ensure_for_domain ensure_tls_material
  ensure_tls_material-some db now c domain e =
      rw (ensure_tls_material, e)
        (read_material-some (c ∷ domain) (ensured (c ∷ domain) now db)
          (HasAll-ensured (c ∷ domain) now db))
