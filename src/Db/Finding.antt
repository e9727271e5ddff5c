-- ===== src/Db/Finding.antt =====
-- The row that a key names, before and after a statement with `WHERE`.
use tyz.Prelude.{
  ◌≡◌, refl, sym, ◌∙◌, Bool, true, false, none, some, List, [], ◌∷◌, ◌++◌, map, arith, filter,
  find?, if◌then◌else◌, Bool-cases, Option-cases, inl, inr,
}

module _ {ℓ} {A : Type ℓ} where
  pub find_sound : (key : A → Bool) (xs : List A) {x : A} → find? key xs ≡ some x → key x ≡ true
  find_sound key [] found = cc
  find_sound key (y ∷ xs) {x} found = elim (Bool-cases (key y)) [
    | inl k ↦
        let same : some y ≡ some x = rw (← found, k) refl in
        let y_is : y ≡ x = grind (arith, same) in rw (← y_is) k
    | inr k ↦ let found' : find? key xs ≡ some x = rw (← found, k) refl in find_sound key xs found'
  ]

  -- A deletion of rows that the key does not name.
  pub find-filter :
      (key keep : A → Bool)
      → ((x : A) → key x ≡ true → keep x ≡ true)
      → (xs : List A) → find? key (filter keep xs) ≡ find? key xs
  find-filter key keep imp [] = refl
  find-filter key keep imp (x ∷ xs) = elim (Bool-cases (key x)) [
    | inl k ↦ rw (imp x k, k) refl
    | inr k ↦ elim (Bool-cases (keep x)) [
      | inl kept ↦ rw (kept, k) (find-filter key keep imp xs)
      | inr gone ↦ rw (gone, k) (find-filter key keep imp xs)
    ]
  ]

  -- A deletion of all rows that the key names.
  pub find-filter-none :
      (key keep : A → Bool)
      → ((x : A) → key x ≡ true → keep x ≡ false)
      → (xs : List A) → find? key (filter keep xs) ≡ none
  find-filter-none key keep imp [] = refl
  find-filter-none key keep imp (x ∷ xs) = elim (Bool-cases (key x)) [
    | inl k ↦ rw (imp x k) (find-filter-none key keep imp xs)
    | inr k ↦ elim (Bool-cases (keep x)) [
      | inl kept ↦ rw (kept, k) (find-filter-none key keep imp xs)
      | inr gone ↦ rw gone (find-filter-none key keep imp xs)
    ]
  ]

  -- An update that keeps the key.
  pub find-map :
      (key : A → Bool) (f : A → A)
      → ((x : A) → key (f x) ≡ key x)
      → (xs : List A)
      → find? key (map f xs) ≡ elim (find? key xs) [ none ↦ none | some x ↦ some (f x) ]
  find-map key f same [] = refl
  find-map key f same (x ∷ xs) = elim (Bool-cases (key x)) [
    | inl k ↦ rw (same x, k) refl
    | inr k ↦ rw (same x, k) (find-map key f same xs)
  ]

  -- A new row behind the others.
  pub find-append :
      (key : A → Bool) (xs : List A) (x : A)
      → find? key (xs ++ x ∷ [])
        ≡ elim (find? key xs) [ none ↦ if key x then some x else none | some y ↦ some y ]
  find-append key [] x = refl
  find-append key (y ∷ xs) x = elim (Bool-cases (key y)) [
    | inl k ↦ rw (k) refl
    | inr k ↦ rw (k) (find-append key xs x)
  ]

  pub find-append-none :
      (key : A → Bool) (xs : List A) (x : A) → find? key (xs ++ x ∷ []) ≡ none → find? key xs ≡ none
  find-append-none key xs x h = elim (Option-cases (find? key xs)) [
    | inl missing ↦ missing
    | inr (y, found) ↦
        let e : find? key (xs ++ x ∷ []) ≡ some y = find-append key xs x ∙ rw found refl in
        absurd (ground (arith, sym h ∙ e))
  ]

  pub find-map-none :
      (key : A → Bool) (f : A → A)
      → ((x : A) → key (f x) ≡ key x)
      → (xs : List A) → find? key (map f xs) ≡ none
      → find? key xs ≡ none
  find-map-none key f same xs h = elim (Option-cases (find? key xs)) [
    | inl missing ↦ missing
    | inr (y, found) ↦
        let e : find? key (map f xs) ≡ some (f y) = find-map key f same xs ∙ rw found refl in
        absurd (ground (arith, sym h ∙ e))
  ]
