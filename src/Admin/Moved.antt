-- ===== src/Admin/Moved.antt =====
-- apps/server/src/routes/admin.ts: changed and deleted links keep the shape of every tunnel.
use tyz.Admin.{patched}
use tyz.Prelude.{
  ℕ, ◌+◌, ◌≤◌, ◌≡◌, not, ◌&&◌, none, some, arith, filter, nat_eq, subst, false, ◌==◌, ==_iff, Text,
  Bool-cases, inl, inr, refl, ==-refl, Bool, if◌then◌else◌, ◌-◌, ◌&&◌, not,
}
use tyz.Entities.{Chain}
use tyz.Db.{Database}
use tyz.Db.Counting.{bit, count, count-update, count-filter-le, find-count}
use tyz.Admin.Shape.{TunnelShape, tunnel_shape, is_tls_link, validate_projected_shape}
use tyz.Admin.Counts.{
  IsShaped, IsCounted, out_on, plain_on, tunnel_shape-ins, tunnel_shape-outs, in_on,
}
use tyz.Admin.Chains.{
  is_in_type, is_out_type, with_link, UpdateChainInput, without_link, patched_chain,
  projected_shape, get_chain, update_chain_row,
}
use tyz.Admin.Shaped.{IsShaped-iff, fits}

module _ (db : Database) (id : ℕ) (input : UpdateChainInput) (now : Text) (existing : Chain)
    (found : get_chain db id ≡ some existing) (once : count (λ c. c.id == id) db.chains ≤ 1) where
  updated :
      (p : Chain → Bool)
      → count p (update_chain_row id input now db).chains + bit (p existing)
        ≡ count p db.chains + bit (p (patched_chain input now existing))
  updated p =
      count-update p (λ c. c.id == id) (patched_chain input now) db.chains existing found once

  updated_elsewhere :
      (t : ℕ)
      → (patched input.tunnel_id existing.tunnel_id == t) ≡ false
      → IsCounted db t db.chains
      → IsCounted db t (update_chain_row id input now db).chains
  unfolding patched_chain
  updated_elsewhere t other h =
      let link = patched_chain input now existing in
      let in_none : bit (in_on t link) ≡ 0 = rw other refl in
      let out_none : bit (out_on t link) ≡ 0 = rw other refl in
      let plain_none : bit (plain_on t link) ≡ 0 = rw other refl in
      (
        omega (arith, h.0, updated (in_on t), in_none),
        λ row here tls.
            let ok = h.1 row here tls in
            (
              omega (arith, ok.0, updated (out_on t), out_none),
              omega (arith, ok.1, updated (plain_on t), plain_none),
            ),
      )

  -- The links of the target tunnel less the updated one.
  others : ℕ → TunnelShape
  others target =
      let shape = tunnel_shape db target in
      if target == existing.tunnel_id then without_link shape existing.chain_type else shape

  others_ins :
      (target : ℕ)
      → (others target).ins + bit (in_on target existing) ≡ count (in_on target) db.chains
  unfolding others without_link
  others_ins target = ground (
    arith,
    tunnel_shape-ins db target,
    find-count (in_on target) (λ c. c.id == id) db.chains existing found,
  )

  others_outs :
      (target : ℕ)
      → (others target).outs + bit (out_on target existing) ≡ count (out_on target) db.chains
  unfolding others without_link
  others_outs target = ground (
    arith,
    tunnel_shape-outs db target,
    find-count (out_on target) (λ c. c.id == id) db.chains existing found,
  )

  updated_here :
      (target : ℕ)
      → patched input.tunnel_id existing.tunnel_id ≡ target
      → IsCounted db target db.chains
      → validate_projected_shape db target (
          with_link
            (others target)
            (patched input.chain_type existing.chain_type)
            (patched input.transport existing.transport))
        ≡ none
      → IsCounted db target (update_chain_row id input now db).chains
  unfolding patched_chain
  updated_here target e h valid =
      let link = patched_chain input now existing in
      let fit =
        fits db target (others target) link.chain_type link.transport
          (count (plain_on target) db.chains - bit (plain_on target existing))
          (λ row here tls. omega (arith, (h.1 row here tls).1)) valid in
      let in_one : bit (in_on target link) ≡ bit (is_in_type link.chain_type) =
        rw (e, ==-refl target) refl in
      let out_one : bit (out_on target link) ≡ bit (is_out_type link.chain_type) =
        rw (e, ==-refl target) refl in
      let plain_one : bit (plain_on target link)
          ≡ bit (is_out_type link.chain_type && not (is_tls_link link.transport)) =
        rw (e, ==-refl target) refl in
      (
        omega (arith, fit.0, updated (in_on target), in_one, others_ins target),
        λ row here tls.
            let ok = fit.1 row here tls in
            let old = h.1 row here tls in
            (
              omega (arith, ok.0, updated (out_on target), out_one, others_outs target),
              omega (arith, ok.1, old.1, updated (plain_on target), plain_one),
            ),
      )

  pub updated-IsShaped :
      ((t : ℕ) → IsShaped db t)
      → validate_projected_shape db
          (patched input.tunnel_id existing.tunnel_id)
          (projected_shape db input existing)
        ≡ none
      → (t : ℕ) → IsShaped (update_chain_row id input now db) t
  unfolding projected_shape others
  updated-IsShaped h valid t =
      let target = patched input.tunnel_id existing.tunnel_id in
      (IsShaped-iff (update_chain_row id input now db) t).1 (elim (Bool-cases (target == t)) [
        | inl here ↦
            subst (λ t. IsCounted db t (update_chain_row id input now db).chains)
              ((==_iff target t).0 here)
              (updated_here target refl ((IsShaped-iff db target).0 (h target)) valid)
        | inr other ↦ updated_elsewhere t other ((IsShaped-iff db t).0 (h t))
      ])

-- Whatever rows a deletion takes.
pub fewer-IsShaped :
    (db : Database) (keep : Chain → Bool) (t : ℕ)
    → IsShaped db t
    → IsShaped (record db { chains = filter keep db.chains }) t
fewer-IsShaped db keep t h =
    let counted = (IsShaped-iff db t).0 h in
    (IsShaped-iff (record db { chains = filter keep db.chains }) t).1 (
      omega (arith, counted.0, count-filter-le (in_on t) keep db.chains),
      λ row found tls.
          let ok = counted.1 row found tls in
          (
            omega (arith, ok.0, count-filter-le (out_on t) keep db.chains),
            omega (arith, ok.1, count-filter-le (plain_on t) keep db.chains),
          ),
    )
