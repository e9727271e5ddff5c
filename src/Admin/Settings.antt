-- ===== src/Admin/Settings.antt =====
-- apps/server/src/routes/admin.ts: the settings of the platform's TLS, and the audit trail.
use tyz.Prelude.{
  ℕ, Bool, Option, none, some, List, [], ◌∷◌, ◌++◌, Text, take, leb, if◌then◌else◌, or_else,
}
use mathlib.Core.List.{reverse}
use tyz.Js.Text.{codes}
use tyz.Js.Text.Decimal.{show}
use tyz.Db.{Database, AuditRow}
use tyz.Tls.{Issuer, TlsProfile, get_tls_domain}
use tyz.Tls.Admin.{
  DomainResult, ProfileInput, Regenerated, all_material, leaves, issued_material, nothing,
  set_tls_domain, set_tls_profile,
}
use tyz.Admin.{
  Response, Work, recompute_tls_nodes, refuse, internal_error, respond, audit_of, record_audit,
}

abbrev regenerated_text : Regenerated → Text
regenerated_text all_material = codes "all"
regenerated_text leaves = codes "leaves"
regenerated_text issued_material = codes "issued"
regenerated_text nothing = codes "none"

abbrev none_if_empty : Text → Text
none_if_empty [] = codes "(none)"
none_if_empty (c ∷ t) = c ∷ t

abbrev profile_detail : TlsProfile → Regenerated → Text
profile_detail profile regenerated =
    codes "CA="
    ++ profile.ca_common_name
    ++ codes " O="
    ++ none_if_empty profile.ca_organization
    ++ codes " leafDays="
    ++ show profile.leaf_validity_days
    ++ codes " caDays="
    ++ show profile.ca_validity_days
    ++ codes " regenerated="
    ++ regenerated_text regenerated

abbrev domain_detail : Option Text → Text → Bool → Text
domain_detail previous domain changed =
    if changed
    then or_else previous (codes "(unset)") ++ codes " -> " ++ domain
    else codes "unchanged (" ++ domain ++ codes ")"

-- `min(limit, 500)` rows, the newest first
unfoldable pub list_audit : Database → ℕ → List AuditRow
list_audit db limit = take (if leb limit 500 then limit else 500) (reverse db.audit_log)

-- A throw of the issue ends in `app.onError`; what was written before it stays.
module _ (issuer : Issuer) where
  unfoldable pub put_tls_domain : Option Text → Text → Text → Database → Response DomainResult
  unfolding set_tls_domain record_audit get_tls_domain
  put_tls_domain none actor now db = refuse 400 (codes "invalid tls domain payload") db
  put_tls_domain (some domain) actor now db =
      let r = set_tls_domain issuer db domain now in
      elim r.0 [
        | none ↦ internal_error r.1
        | some result ↦
            respond result
              (record_audit now
                (audit_of actor (codes "settings.tls_domain") (codes "settings")
                  (codes "tls_domain") (domain_detail (get_tls_domain db) domain result.changed))
                r.1)
              (if result.changed then recompute_tls_nodes ∷ [] else [])
      ]

  abbrev profile_work : Regenerated → List Work
  profile_work all_material = recompute_tls_nodes ∷ []
  profile_work leaves = recompute_tls_nodes ∷ []
  profile_work issued_material = recompute_tls_nodes ∷ []
  profile_work nothing = []

  unfoldable pub put_tls_profile :
      Option ProfileInput → Text → Text → Database → Response (TlsProfile × Regenerated)
  unfolding set_tls_profile record_audit
  put_tls_profile none actor now db = refuse 400 (codes "invalid tls profile payload") db
  put_tls_profile (some input) actor now db =
      let r = set_tls_profile issuer db input now in
      elim r.1 [
        | none ↦ internal_error r.2
        | some regenerated ↦
            respond (r.0, regenerated)
              (record_audit now
                (audit_of actor (codes "settings.tls_profile") (codes "settings")
                  (codes "tls_profile") (profile_detail r.0 regenerated))
                r.2)
              (profile_work regenerated)
      ]
