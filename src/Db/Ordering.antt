-- ===== src/Db/Ordering.antt =====
-- `ORDER BY` and `WHERE`.
use tyz.Prelude.{
  ℕ, ◌≤◌, ◌≡◌, refl, ◌∙◌, Bool, List, [], ◌∷◌, arith, if◌then◌else◌, filter, leb, All, All-imp,
  All-filter_of, Bool-cases, inl, inr,
}
use tyz.Db.Statements.{insert_by, order_by}

-- A stable sort commutes with a filter.
module _ {ℓ} {A : Type ℓ} (column : A → ℕ) where
  abbrev IsOrdered : List A → Type 0
  IsOrdered [] = Unit
  IsOrdered (x ∷ xs) = All (λ y. column x ≤ column y) xs × IsOrdered xs

  insert_by-least :
      (x : A) (xs : List A) → All (λ y. column x ≤ column y) xs → insert_by column x xs ≡ x ∷ xs
  unfolding insert_by
  insert_by-least x [] h = refl
  insert_by-least x (y ∷ ys) h = ground (arith, h.0)

  All-insert_by :
      (b : ℕ) (x : A) (xs : List A)
      → b ≤ column x
      → All (λ y. b ≤ column y) xs
      → All (λ y. b ≤ column y) (insert_by column x xs)
  unfolding insert_by
  All-insert_by b x [] l h = (l, tt)
  All-insert_by b x (y ∷ ys) l h = elim (Bool-cases (leb (column x) (column y))) [
    | inl le ↦ rw (le, All) (l, h)
    | inr above ↦ rw (above, All) (h.0, All-insert_by b x ys l h.1)
  ]

  insert_by-IsOrdered : (x : A) (xs : List A) → IsOrdered xs → IsOrdered (insert_by column x xs)
  unfolding insert_by
  insert_by-IsOrdered x [] h = (tt, tt)
  insert_by-IsOrdered x (y ∷ ys) h = elim (Bool-cases (leb (column x) (column y))) [
    | inl le ↦
        let least : column x ≤ column y = ground (arith, le) in
        rw (le, IsOrdered) ((least, All-imp _ _ (λ z k. omega (arith, least, k)) ys h.0), h)
    | inr above ↦
        rw (above, IsOrdered)
          (All-insert_by (column y) x ys (ground (arith, above)) h.0, insert_by-IsOrdered x ys h.1)
  ]

  order_by-IsOrdered : (xs : List A) → IsOrdered (order_by column xs)
  unfolding order_by
  order_by-IsOrdered [] = tt
  order_by-IsOrdered (x ∷ xs) = insert_by-IsOrdered x (order_by column xs) (order_by-IsOrdered xs)

  filter-insert_by :
      (p : A → Bool) (x : A) (xs : List A)
      → IsOrdered xs
      → filter p (insert_by column x xs)
        ≡ (if p x then insert_by column x (filter p xs) else filter p xs)
  unfolding insert_by
  filter-insert_by p x [] h = ground arith
  filter-insert_by p x (y ∷ ys) h = elim (Bool-cases (leb (column x) (column y))) [
    | inl le ↦
        let least : column x ≤ column y = ground (arith, le) in
        let below =
          All-filter_of (λ z. column x ≤ column z) p (y ∷ ys)
            (least, All-imp _ _ (λ z k. omega (arith, least, k)) ys h.0) in
        rw (le, insert_by-least x (filter p (y ∷ ys)) below) refl
    | inr above ↦ elim (Bool-cases (p y)) [
      | inl keep ↦ ground (arith, above, keep, filter-insert_by p x ys h.1)
      | inr left_out ↦ ground (arith, above, left_out, filter-insert_by p x ys h.1)
    ]
  ]

  pub filter-order_by :
      (p : A → Bool) (xs : List A) → filter p (order_by column xs) ≡ order_by column (filter p xs)
  unfolding order_by
  filter-order_by p [] = refl
  filter-order_by p (x ∷ xs) =
      filter-insert_by p x (order_by column xs) (order_by-IsOrdered xs)
      ∙ ground (arith, filter-order_by p xs)
