-- ===== src/Js/Map.antt =====
-- `Map` and `Set`: association lists in insertion order, and lists without repeats.
use tyz.Prelude.{
  map, All, Bool-cases, inl, inr, ℕ, ◌+◌, sum_of, ◌≡◌, refl, Bool, false, ◌||◌, Option, none, some,
  List, [], ◌∷◌, ◌++◌, foldl, arith, if◌then◌else◌, StrictEq, ◌==◌, ==_iff, filter, ◌&&◌,
}

abbrev pub JsMap {ℓ κ} : Type ℓ → Type κ → Type (ℓ ⊔ κ)
JsMap K V = List (K × V)

-- What an entry counts; an absent one counts nothing.
abbrev pub value_at {ℓ} : {V : Type ℓ} → (V → ℕ) → Option V → ℕ
value_at f none = 0
value_at f (some v) = f v

module _ {ℓ κ} {K : Type ℓ} {V : Type κ} ⦃e : StrictEq K⦄ where
  unfoldable pub get : JsMap K V → K → Option V
  get [] k = none
  get ((j, v) ∷ m) k = let rest = get m k in if j == k then some v else rest

  -- A key that is there keeps its place.
  unfoldable pub set : JsMap K V → K → V → JsMap K V
  set [] k v = (k, v) ∷ []
  set ((j, w) ∷ m) k v = let rest = set m k v in if j == k then (j, v) ∷ m else (j, w) ∷ rest

  pub get-set :
      (m : JsMap K V) (k j : K) (v : V) → get (set m k v) j ≡ (if k == j then some v else get m j)
  unfolding get set
  get-set [] k j v = refl
  get-set ((i, w) ∷ m) k j v = ground (arith, ==_iff k j, ==_iff i k, ==_iff i j, get-set m k j v)

  pub sum-set :
      (f : V → ℕ) (m : JsMap K V) (k : K) (v : V)
      → sum_of (λ x. f x.1) (set m k v) + value_at f (get m k) ≡ sum_of (λ x. f x.1) m + f v
  unfolding get set
  sum-set f [] k v = omega arith
  sum-set f ((j, w) ∷ m) k v = ground (arith, sum-set f m k v)

  -- What holds of every entry and of the new one holds after `set`; a key keeps its spelling.
  pub All-set {μ} :
      (P : K × V → Type μ) (m : JsMap K V) (k : K) (v : V) → All P m → P (k, v) → All P (set m k v)
  unfolding set
  All-set P [] k v h p = (p, tt)
  All-set P ((j, w) ∷ m) k v h p = elim (Bool-cases (j == k)) [
    | inl same ↦ rw (same, (==_iff j k).0 same) (p, h.1)
    | inr other ↦ rw other (h.0, All-set P m k v h.1 p)
  ]

  pub All-get {μ} :
      (P : K × V → Type μ) (m : JsMap K V) (k : K) {v : V} → All P m → get m k ≡ some v → P (k, v)
  unfolding get
  All-get P [] k h e = cc
  All-get P ((j, w) ∷ m) k {v} h e = elim (Bool-cases (j == k)) [
    | inl same ↦
        let found : w ≡ v = ground arith in
        let key : j ≡ k = (==_iff j k).0 same in rw (← found, ← key) h.0
    | inr other ↦ All-get P m k h.1 (ground arith)
  ]

  pub All-of_get-none : (m : JsMap K V) (k : K) → get m k ≡ none → All (λ x. (x.0 == k) ≡ false) m
  unfolding get
  All-of_get-none [] k h = tt
  All-of_get-none ((j, w) ∷ m) k h = (ground arith, All-of_get-none m k (ground arith))

module _ {ℓ} {A : Type ℓ} ⦃e : StrictEq A⦄ where
  -- `.has`, `.includes`, and membership in an SQL `IN` list
  abbrev pub has : List A → A → Bool
  has [] a = false
  has (x ∷ xs) a = x == a || has xs a

  unfoldable pub add : List A → A → List A
  add s a = if has s a then s else s ++ a ∷ []

  -- `[...new Set(xs)]`
  unfoldable pub distinct : List A → List A
  unfolding add
  distinct xs = foldl add [] xs

  pub has-append : (xs ys : List A) (a : A) → has (xs ++ ys) a ≡ (has xs a || has ys a)
  has-append [] ys a = refl
  has-append (x ∷ xs) ys a = ground (arith, has-append xs ys a)

  pub has-add : (s : List A) (x a : A) → has (add s x) a ≡ (has s a || x == a)
  unfolding add
  has-add s x a = ground (arith, ==_iff x a, has-append s (x ∷ []) a)

  has-foldl-add : (xs s : List A) (a : A) → has (foldl add s xs) a ≡ (has s a || has xs a)
  has-foldl-add [] s a = ground arith
  has-foldl-add (x ∷ xs) s a = ground (arith, has-foldl-add xs (add s x) a, has-add s x a)

  pub has-distinct : (xs : List A) (a : A) → has (distinct xs) a ≡ has xs a
  unfolding distinct
  has-distinct xs a = has-foldl-add xs [] a

  pub has-filter : (p : A → Bool) (xs : List A) (a : A) → has (filter p xs) a ≡ (p a && has xs a)
  has-filter p [] a = ground arith
  has-filter p (x ∷ xs) a = ground (arith, has-filter p xs a, ==_iff x a)

-- The keys of a map are those that `get` finds.
pub has-keys {ℓ κ} :
    {K : Type ℓ} {V : Type κ} ⦃e : StrictEq K⦄ (m : JsMap K V) (k : K)
    → get m k ≡ none
    → has (map (λ x. x.0) m) k ≡ false
unfolding get
has-keys [] k h = refl
has-keys ((j, w) ∷ m) k h = ground (arith, has-keys m k)

-- `new Map(rows.map((r) => [key(r), value(r)]))`, and a loop of `map.set(key(r), value(r))`.
module _ {ℓ κ μ} {K : Type ℓ} {V : Type κ} {R : Type μ} ⦃e : StrictEq K⦄ (key : R → K)
    (value : R → V) where
  abbrev pub put_row : JsMap K V → R → JsMap K V
  put_row m r = set m (key r) (value r)

  unfoldable pub index_by : List R → JsMap K V
  index_by rows = foldl put_row [] rows

  get-put_row :
      (m : JsMap K V) (r : R) (k : K)
      → get (put_row m r) k ≡ (if key r == k then some (value r) else get m k)
  get-put_row m r k = get-set m (key r) k (value r)

  -- What stands at a key depends on the rows with that key alone.
  get-foldl-filter :
      (p q : R → Bool) (k : K)
      → ((r : R) → key r ≡ k → p r ≡ q r)
      → (rows : List R) (m n : JsMap K V) → get m k ≡ get n k
      → get (foldl put_row m (filter p rows)) k ≡ get (foldl put_row n (filter q rows)) k
  get-foldl-filter p q k agree [] m n h = h
  get-foldl-filter p q k agree (r ∷ rows) m n h = ground (
    arith,
    agree r,
    ==_iff (key r) k,
    get-put_row m r k,
    get-put_row n r k,
    get-foldl-filter p q k agree rows m n h,
    get-foldl-filter p q k agree rows (put_row m r) n,
    get-foldl-filter p q k agree rows m (put_row n r),
    get-foldl-filter p q k agree rows (put_row m r) (put_row n r),
  )

  pub get-index_by-filter :
      (p q : R → Bool) (k : K)
      → ((r : R) → key r ≡ k → p r ≡ q r)
      → (rows : List R) → get (index_by (filter p rows)) k ≡ get (index_by (filter q rows)) k
  unfolding index_by
  get-index_by-filter p q k agree rows = get-foldl-filter p q k agree rows [] [] refl

  -- What holds of every row holds of what is found.
  pub index_by-every {ν} :
      (P : K × V → Type ν) (rows : List R) (k : K) {v : V}
      → All (λ r. P (key r, value r)) rows
      → get (index_by rows) k ≡ some v
      → P (k, v)
  unfolding index_by
  index_by-every P rows k h e = All-get P (foldl put_row [] rows) k (kept rows [] h tt) e
    where
      kept :
          (rows : List R) (m : JsMap K V)
          → All (λ r. P (key r, value r)) rows
          → All P m
          → All P (foldl put_row m rows)
      kept [] m h hm = hm
      kept (r ∷ rows) m h hm = kept rows (put_row m r) h.1 (All-set P m (key r) (value r) hm h.0)

-- A map from keys to what a function says of them.
module _ {ℓ κ} {K : Type ℓ} {V : Type κ} ⦃e : StrictEq K⦄ (f : K → V) where
  get-foldl_self :
      (ks : List K) (m : JsMap K V) (k : K)
      → get (foldl (put_row (λ x. x) f) m ks) k ≡ (if has ks k then some (f k) else get m k)
  get-foldl_self [] m k = refl
  get-foldl_self (j ∷ ks) m k = ground (
    arith,
    ==_iff j k,
    get-put_row (λ x. x) f m j k,
    get-foldl_self ks (put_row (λ x. x) f m j) k,
  )

  pub get-index_by_self :
      (ks : List K) (k : K)
      → get (index_by (λ x. x) f ks) k ≡ (if has ks k then some (f k) else none)
  unfolding index_by get
  get-index_by_self ks k = get-foldl_self ks [] k
