-- ===== src/Tests/TlsRuns.antt =====
-- TLS material on a platform with a domain.
use tyz.Prelude.{◌≡◌, ◌↔◌, refl, true, false, map, some, [], ◌∷◌, length, text_eq}
use tyz.Js.Text.{codes}
use tyz.Db.{Database, MaterialRow, MaterialKind, ca, server, client}
use tyz.Entities.{TlsMaterial}
use tyz.Tls.{Issuer, get_tls_domain, find_setting, ensure_tls_material, has_material}
use tyz.Tls.Issues.{HasAll, ensure_tls_material-some}
use tyz.Tls.Admin.{DomainResult, set_tls_domain, renew_tls_material}
use tyz.Tls.Renewal.{renew_tls_material-HasAll, set_tls_domain-some}
use tyz.Tests.Fixtures.{time, db}

abbrev issued : MaterialKind → MaterialRow
issued kind = record {
  kind = kind;
  cert_pem = codes "cert";
  key_pem = codes "key";
  not_after = time;
  updated_at = time;
}

abbrev pub issuer : Issuer
issuer = record {
  generate_ca = λ domain profile. issued ca;
  issue_leaf = λ kind domain profile ca_row. issued kind;
}

abbrev pub with_domain : Database
with_domain = record db {
  app_settings =
      record { key = codes "tls_domain"; value = codes "relay.example.org"; updated_at = time }
      ∷ [];
}

ensure_tls_material-some_example :
    (m : TlsMaterial) × ((ensure_tls_material issuer with_domain time).0 ≡ some m)
    × (m.sni ≡ codes "relay.example.org")
unfolding get_tls_domain find_setting
ensure_tls_material-some_example =
    ensure_tls_material-some issuer (λ domain profile. refl, λ kind domain profile ca_row. refl)
      with_domain time b'r' (codes "elay.example.org") refl

abbrev complete : Database
complete = record with_domain { tls_material = map issued (client ∷ ca ∷ server ∷ []) }

complete-HasAll : (k : MaterialKind) → has_material complete k ≡ true
complete-HasAll ca = refl
complete-HasAll server = refl
complete-HasAll client = refl

-- Every certificate ends within thirty days.
renew_tls_material-HasAll_example : HasAll (renew_tls_material issuer length 5 complete time).1
renew_tls_material-HasAll_example =
    renew_tls_material-HasAll issuer (λ domain profile. refl, λ kind domain profile ca_row. refl)
      length 5 complete time complete-HasAll

set_tls_domain-some_example :
    (r : DomainResult) × ((set_tls_domain issuer with_domain (codes "new.example.org") time).0
      ≡ some r)
    × ((r.changed ≡ false) ↔ (get_tls_domain with_domain ≡ some (codes "new.example.org")))
set_tls_domain-some_example =
    set_tls_domain-some issuer (λ domain profile. refl, λ kind domain profile ca_row. refl)
      with_domain time b'n' (codes "ew.example.org")
