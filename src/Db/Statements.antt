-- ===== src/Db/Statements.antt =====
-- Statements over one table: upserts by a key, and the chunks that keep a statement below D1's
-- cap of 100 bound parameters.
use tyz.Prelude.{
  leb, All-take, All-drop, ◌+◌, true, false, filter, sum_of, ℕ, zero, suc, ◌≤◌, ◌≡◌, refl, sym, ap,
  Bool, ◌∙◌, List, [], ◌∷◌, ◌++◌, foldl, arith, if◌then◌else◌, length, take, drop, All,
  take-append-drop, length-take-le, length-drop-le,
}
use mathlib.Core.List.{flatten, foldl-append}

module _ {ℓ} {A : Type ℓ} where
  -- `for (i = 0; i < rows.length; i += size) parts.push(rows.slice(i, i + size))`
  unfoldable pub chunk_rounds : ℕ → ℕ → List A → List (List A)
  chunk_rounds zero size rows = []
  chunk_rounds (suc f) size [] = []
  chunk_rounds (suc f) size (x ∷ rows) =
      take size (x ∷ rows) ∷ chunk_rounds f size (drop size (x ∷ rows))

  -- One round for each row is enough, if `size` is positive.
  unfoldable pub chunk : List A → ℕ → List (List A)
  unfolding chunk_rounds
  chunk rows size = chunk_rounds (length rows) size rows

  flatten-chunk_rounds :
      (f size : ℕ) (rows : List A)
      → length rows ≤ f
      → flatten (chunk_rounds f (suc size) rows) ≡ rows
  unfolding chunk_rounds flatten
  flatten-chunk_rounds zero size [] h = refl
  flatten-chunk_rounds zero size (x ∷ rows) h = absurd (omega arith)
  flatten-chunk_rounds (suc f) size [] h = refl
  flatten-chunk_rounds (suc f) size (x ∷ rows) h =
      ap (λ t. x ∷ (take size rows ++ t))
        (flatten-chunk_rounds f size (drop size rows) (omega (arith, length-drop-le size rows)))
      ∙ ap (◌∷◌ x) (take-append-drop size rows)

  pub flatten-chunk : (rows : List A) (size : ℕ) → flatten (chunk rows (suc size)) ≡ rows
  unfolding chunk
  flatten-chunk rows size = flatten-chunk_rounds (length rows) size rows (omega arith)

  All-chunk_rounds :
      (f size : ℕ) (rows : List A) → All (λ part. length part ≤ size) (chunk_rounds f size rows)
  unfolding chunk_rounds
  All-chunk_rounds zero size rows = tt
  All-chunk_rounds (suc f) size [] = tt
  All-chunk_rounds (suc f) size (x ∷ rows) =
      (length-take-le size (x ∷ rows), All-chunk_rounds f size (drop size (x ∷ rows)))

  All-All-chunk_rounds {κ} :
      (P : A → Type κ) (f size : ℕ) (rows : List A)
      → All P rows
      → All (All P) (chunk_rounds f size rows)
  unfolding chunk_rounds
  All-All-chunk_rounds P zero size rows h = tt
  All-All-chunk_rounds P (suc f) size [] h = tt
  All-All-chunk_rounds P (suc f) size (x ∷ rows) h = (
    All-take P size (x ∷ rows) h,
    All-All-chunk_rounds P f size (drop size (x ∷ rows)) (All-drop P size (x ∷ rows) h),
  )

  pub All-All-chunk {κ} :
      (P : A → Type κ) (rows : List A) (size : ℕ) → All P rows → All (All P) (chunk rows size)
  unfolding chunk
  All-All-chunk P rows size h = All-All-chunk_rounds P (length rows) size rows h

  -- `ORDER BY column`, stable
  unfoldable pub insert_by : (A → ℕ) → A → List A → List A
  insert_by column x [] = x ∷ []
  insert_by column x (y ∷ ys) =
      let rest = insert_by column x ys in if leb (column x) (column y) then x ∷ y ∷ ys else y ∷ rest

  unfoldable pub order_by : (A → ℕ) → List A → List A
  unfolding insert_by
  order_by column [] = []
  order_by column (x ∷ xs) = insert_by column x (order_by column xs)

  -- `INSERT … ON CONFLICT(key) DO UPDATE SET …`: `same` compares keys, `merge old new` is the row kept.
  unfoldable pub upsert : (A → A → Bool) → (A → A → A) → List A → A → List A
  upsert same merge [] row = row ∷ []
  upsert same merge (old ∷ table) row =
      let rest = upsert same merge table row in
      if same old row then merge old row ∷ table else old ∷ rest

  pub All-chunk : (rows : List A) (size : ℕ) → All (λ part. length part ≤ size) (chunk rows size)
  unfolding chunk
  All-chunk rows size = All-chunk_rounds (length rows) size rows

module _ {ℓ κ} {A : Type ℓ} {S : Type κ} (step : S → A → S) where
  foldl-flatten :
      (s : S) (parts : List (List A)) → foldl (foldl step) s parts ≡ foldl step s (flatten parts)
  unfolding flatten
  foldl-flatten s [] = refl
  foldl-flatten s (part ∷ parts) =
      foldl-flatten (foldl step s part) parts ∙ sym (foldl-append step s part (flatten parts))

  -- One statement for each chunk, each with its rows in order, is one row after the other.
  pub foldl-chunk :
      (s : S) (rows : List A) (size : ℕ)
      → foldl (foldl step) s (chunk rows (suc size)) ≡ foldl step s rows
  foldl-chunk s rows size =
      foldl-flatten s (chunk rows (suc size)) ∙ ap (foldl step s) (flatten-chunk rows size)

module _ {ℓ} {A : Type ℓ} (same : A → A → Bool) (merge : A → A → A) where
  -- Rows that neither the new row nor its merge touches stay as they were.
  pub filter-upsert :
      (p : A → Bool)
      → ((old row : A)
          → same old row ≡ true
          → p row ≡ false
          → (p old ≡ false) × (p (merge old row) ≡ false))
      → (table : List A) (row : A) → p row ≡ false
      → filter p (upsert same merge table row) ≡ filter p table
  unfolding upsert
  filter-upsert p keeps [] row h = ground arith
  filter-upsert p keeps (old ∷ table) row h =
      ground (arith, keeps old row, filter-upsert p keeps table row)

  pub filter-foldl-upsert :
      (p : A → Bool)
      → ((old row : A)
          → same old row ≡ true
          → p row ≡ false
          → (p old ≡ false) × (p (merge old row) ≡ false))
      → (rows table : List A) → All (λ row. p row ≡ false) rows
      → filter p (foldl (upsert same merge) table rows) ≡ filter p table
  filter-foldl-upsert p keeps [] table h = refl
  filter-foldl-upsert p keeps (row ∷ rows) table h =
      filter-foldl-upsert p keeps rows (upsert same merge table row) h.1
      ∙ filter-upsert p keeps table row h.0

  -- A column that the merge adds up.
  pub sum-upsert :
      (f : A → ℕ)
      → ((old row : A) → f (merge old row) ≡ f old + f row)
      → (table : List A) (row : A) → sum_of f (upsert same merge table row) ≡ sum_of f table + f row
  unfolding upsert
  sum-upsert f adds [] row = omega arith
  sum-upsert f adds (old ∷ table) row = ground (arith, adds old row, sum-upsert f adds table row)

  pub sum-foldl-upsert :
      (f : A → ℕ)
      → ((old row : A) → f (merge old row) ≡ f old + f row)
      → (rows table : List A)
      → sum_of f (foldl (upsert same merge) table rows) ≡ sum_of f table + sum_of f rows
  sum-foldl-upsert f adds [] table = omega arith
  sum-foldl-upsert f adds (row ∷ rows) table = omega (
    arith,
    sum-foldl-upsert f adds rows (upsert same merge table row),
    sum-upsert f adds table row,
  )
