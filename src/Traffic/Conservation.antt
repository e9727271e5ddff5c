-- ===== src/Traffic/Conservation.antt =====
-- What the fold of a batch counts, against the growth of the cumulative counters.
use tyz.Prelude.{
  ℕ, ◌+◌, ◌≤◌, ◌≡◌, Option, none, some, List, [], ◌∷◌, foldl, arith, Text, sum_of, nat_eq, text_eq,
}
use tyz.Js.Map
use tyz.Js.Map.{JsMap, value_at, sum-set}
use tyz.Samples.{GostStatsSample}
use tyz.Traffic.{Usage, Fold, delta, ingest_sample}

-- The sums of the last known cumulative values.
abbrev pub total_upload : JsMap Text Usage → ℕ
total_upload last = sum_of (λ e. e.1.upload) last

abbrev pub total_download : JsMap Text Usage → ℕ
total_download last = sum_of (λ e. e.1.download) last

abbrev pub IsAbove : Option Usage → GostStatsSample → Type 0
IsAbove none s = Unit
IsAbove (some prev) s = (prev.upload ≤ s.input_bytes) × (prev.download ≤ s.output_bytes)

-- No counter falls, in the order in which the samples arrive.
abbrev pub IsGrowing : JsMap Text Usage → List GostStatsSample → Type 0
IsGrowing last [] = Unit
IsGrowing last (s ∷ samples) =
    IsAbove (Map.get last s.service) s
    × IsGrowing
        (Map.set last s.service (record { upload = s.input_bytes; download = s.output_bytes }))
        samples

delta-upload :
    (prev : Option Usage) (s : GostStatsSample)
    → s.input_bytes ≤ (delta prev s).upload + value_at (λ u. u.upload) prev
unfolding delta
delta-upload none s = omega arith
delta-upload (some p) s = ground arith

delta-download :
    (prev : Option Usage) (s : GostStatsSample)
    → s.output_bytes ≤ (delta prev s).download + value_at (λ u. u.download) prev
unfolding delta
delta-download none s = omega arith
delta-download (some p) s = ground arith

delta_exact :
    (prev : Option Usage) (s : GostStatsSample)
    → IsAbove prev s
    → ((delta prev s).upload + value_at (λ u. u.upload) prev ≡ s.input_bytes)
      × ((delta prev s).download + value_at (λ u. u.download) prev ≡ s.output_bytes)
unfolding delta
delta_exact none s h = omega arith
delta_exact (some p) s h = ground arith

module _ (owner_of : JsMap ℕ ℕ) (hour_ts : Text) where
  -- Summed over the services, what a batch adds to its node's ingress and egress is never below the
  -- growth of the last counters, resets or not, whatever the map of owners.
  pub fold_never_under :
      (samples : List GostStatsSample) (st : Fold)
      → let st' = foldl (ingest_sample owner_of hour_ts) st samples in
        (st.node_ingress + total_upload st'.last ≤ st'.node_ingress + total_upload st.last)
        × (st.node_egress + total_download st'.last ≤ st'.node_egress + total_download st.last)
  unfolding ingest_sample
  fold_never_under [] st = omega arith
  fold_never_under (s ∷ samples) st =
      let current : Usage = record { upload = s.input_bytes; download = s.output_bytes } in
      omega (
        arith,
        fold_never_under samples (ingest_sample owner_of hour_ts st s),
        sum-set (λ (u : Usage). u.upload) st.last s.service current,
        sum-set (λ (u : Usage). u.download) st.last s.service current,
        delta-upload (Map.get st.last s.service) s,
        delta-download (Map.get st.last s.service) s,
      )

  -- If no counter falls within the batch, neither below the stored one nor below an earlier sample,
  -- what the batch adds to its node's ingress and egress is exactly that growth, whatever the order
  -- in which services report.
  pub fold_exact :
      (samples : List GostStatsSample) (st : Fold)
      → IsGrowing st.last samples
      → let st' = foldl (ingest_sample owner_of hour_ts) st samples in
        (st.node_ingress + total_upload st'.last ≡ st'.node_ingress + total_upload st.last)
        × (st.node_egress + total_download st'.last ≡ st'.node_egress + total_download st.last)
  unfolding ingest_sample
  fold_exact [] st h = omega arith
  fold_exact (s ∷ samples) st h =
      let current : Usage = record { upload = s.input_bytes; download = s.output_bytes } in
      omega (
        arith,
        fold_exact samples (ingest_sample owner_of hour_ts st s) h.1,
        sum-set (λ (u : Usage). u.upload) st.last s.service current,
        sum-set (λ (u : Usage). u.download) st.last s.service current,
        delta_exact (Map.get st.last s.service) s h.0,
      )
