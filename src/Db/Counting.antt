-- ===== src/Db/Counting.antt =====
-- How many rows of a table pass a test, before and after a statement with `WHERE`.
use tyz.Prelude.{
  ℕ, ◌+◌, ◌≤◌, ◌≡◌, refl, Bool, true, false, ◌&&◌, some, List, [], ◌∷◌, ◌++◌, map, arith, subst,
  length, filter, find?, if◌then◌else◌, Bool-cases, inl, inr, All, sym, ◌∙◌,
}

abbrev pub bit : Bool → ℕ
bit true = 1
bit false = 0

module _ {ℓ} {A : Type ℓ} where
  abbrev pub count : (A → Bool) → List A → ℕ
  count p [] = 0
  count p (x ∷ xs) = bit (p x) + count p xs

  pub length-filter : (p : A → Bool) (xs : List A) → length (filter p xs) ≡ count p xs
  length-filter p [] = refl
  length-filter p (x ∷ xs) = ground (arith, length-filter p xs)

  pub count-filter :
      (p q : A → Bool) (xs : List A) → count p (filter q xs) ≡ count (λ x. q x && p x) xs
  count-filter p q [] = refl
  count-filter p q (x ∷ xs) = ground (arith, count-filter p q xs)

  pub count-append : (p : A → Bool) (xs ys : List A) → count p (xs ++ ys) ≡ count p xs + count p ys
  count-append p [] ys = omega arith
  count-append p (x ∷ xs) ys = omega (arith, count-append p xs ys)

  pub count-le :
      (p q : A → Bool)
      → ((x : A) → p x ≡ true → q x ≡ true)
      → (xs : List A) → count p xs ≤ count q xs
  count-le p q imp [] = omega arith
  count-le p q imp (x ∷ xs) = elim (Bool-cases (p x)) [
    | inl h ↦ rw (h, imp x h) (omega (arith, count-le p q imp xs))
    | inr h ↦ rw h (omega (arith, count-le p q imp xs))
  ]

  -- A deletion only lowers a count.
  pub count-filter-le : (p keep : A → Bool) (xs : List A) → count p (filter keep xs) ≤ count p xs
  count-filter-le p keep [] = omega arith
  count-filter-le p keep (x ∷ xs) = ground (arith, count-filter-le p keep xs)

  map_none :
      (key : A → Bool) (f : A → A) (xs : List A)
      → count key xs ≡ 0
      → map (λ x. if key x then f x else x) xs ≡ xs
  map_none key f [] h = refl
  map_none key f (x ∷ xs) h = elim (Bool-cases (key x)) [
    | inl k ↦ absurd (omega (arith, subst (λ b. bit b + count key xs ≡ 0) k h))
    | inr k ↦
        rw (k, map_none key f xs (omega (arith, subst (λ b. bit b + count key xs ≡ 0) k h))) refl
  ]

  -- An update of the one row that a key names.
  pub count-update :
      (p key : A → Bool) (f : A → A) (xs : List A) (x : A)
      → find? key xs ≡ some x
      → count key xs ≤ 1
      → count p (map (λ y. if key y then f y else y) xs) + bit (p x) ≡ count p xs + bit (p (f x))
  count-update p key f [] x found once = cc
  count-update p key f (y ∷ xs) x found once = elim (Bool-cases (key y)) [
    | inl k ↦
        let same : some y ≡ some x = rw (← found, k) refl in
        let y_is : y ≡ x = grind (arith, same) in
        let once' : bit true + count key xs ≤ 1 = subst (λ b. bit b + count key xs ≤ 1) k once in
        rw (k, map_none key f xs (omega arith), y_is) (omega arith)
    | inr k ↦
        let found' : find? key xs ≡ some x = rw (← found, k) refl in
        let once' : bit false + count key xs ≤ 1 = subst (λ b. bit b + count key xs ≤ 1) k once in
        rw k (omega (arith, count-update p key f xs x found' (omega (arith, once'))))
  ]

  -- A row that is found is counted.
  pub find-count :
      (p key : A → Bool) (xs : List A) (x : A) → find? key xs ≡ some x → p x ≡ true → 1 ≤ count p xs
  find-count p key [] x found h = cc
  find-count p key (y ∷ xs) x found h = elim (Bool-cases (key y)) [
    | inl k ↦
        let same : some y ≡ some x = rw (← found, k) refl in
        let y_is : y ≡ x = grind (arith, same) in rw (y_is, h) (omega arith)
    | inr k ↦
        let found' : find? key xs ≡ some x = rw (← found, k) refl in
        omega (arith, find-count p key xs x found' h)
  ]

  pub count-none : (p : A → Bool) → ((x : A) → p x ≡ false) → (xs : List A) → count p xs ≡ 0
  count-none p never [] = refl
  count-none p never (x ∷ xs) = rw (never x) (omega (arith, count-none p never xs))

  pub count-map :
      (p : A → Bool) (f : A → A)
      → ((x : A) → p (f x) ≡ p x)
      → (xs : List A) → count p (map f xs) ≡ count p xs
  count-map p f same [] = refl
  count-map p f same (x ∷ xs) = rw (same x) (omega (arith, count-map p f same xs))

  none_counted :
      (key : A → Bool) (x : A) (xs : List A) → count key xs ≡ 0 → All (λ y. key y ≡ true → y ≡ x) xs
  none_counted key x [] h = tt
  none_counted key x (y ∷ xs) h = (
    λ k. absurd (omega (arith, subst (λ b. bit b + count key xs ≡ 0) k h)),
    none_counted key x xs (omega (arith, h)),
  )

  -- A key that one row at most has names the row that is found, and no other.
  pub All-found :
      (key : A → Bool) (xs : List A) (x : A)
      → find? key xs ≡ some x
      → count key xs ≤ 1
      → All (λ y. key y ≡ true → y ≡ x) xs
  All-found key [] x found once = cc
  All-found key (y ∷ xs) x found once = elim (Bool-cases (key y)) [
    | inl k ↦
        let same : some y ≡ some x = rw (← found, k) refl in
        let y_is : y ≡ x = grind (arith, same) in
        let left = subst (λ b. bit b + count key xs ≤ 1) k once in
        (λ _. y_is, none_counted key x xs (omega (arith, left)))
    | inr k ↦
        let found' : find? key xs ≡ some x = rw (← found, k) refl in
        (λ k'. absurd (ground (arith, sym k ∙ k')), All-found key xs x found' (omega (arith, once)))
  ]

  pub count-same :
      (p q : A → Bool) → ((x : A) → p x ≡ q x) → (xs : List A) → count p xs ≡ count q xs
  count-same p q same [] = refl
  count-same p q same (x ∷ xs) = rw (same x) (omega (arith, count-same p q same xs))
