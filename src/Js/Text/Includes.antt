-- ===== src/Js/Text/Includes.antt =====
-- `includes` on strings.
use tyz.Prelude.{◌≡◌, refl, ap, true, [], ◌∷◌, ◌++◌, Text, arith, ◌↔◌, Bool-cases, inl, inr}
use tyz.Js.Text.{starts_with, includes}

starts_with-append : (s after : Text) → starts_with s (s ++ after) ≡ true
starts_with-append [] after = refl
starts_with-append (c ∷ s) after = ground (arith, starts_with-append s after)

starts_with-split : (s t : Text) → starts_with s t ≡ true → (after : Text) × (t ≡ s ++ after)
starts_with-split [] t h = (t, refl)
starts_with-split (a ∷ s) [] h = absurd (ground (arith, h))
starts_with-split (a ∷ s) (b ∷ t) h =
    let rest = starts_with-split s t (ground (arith, h)) in
    let same : a ≡ b = ground (arith, h) in (rest.0, ground (arith, same, rest.1))

includes-append : (before s after : Text) → includes (before ++ s ++ after) s ≡ true
includes-append [] [] [] = refl
includes-append [] [] (c ∷ after) = refl
includes-append [] (c ∷ s) after = ground (arith, starts_with-append (c ∷ s) after)
includes-append (c ∷ before) s after = ground (arith, includes-append before s after)

includes-split :
    (t s : Text)
    → includes t s ≡ true
    → (before : Text) × (after : Text) × (t ≡ before ++ s ++ after)
includes-split [] s h = let found = starts_with-split s [] h in ([], found.0, found.1)
includes-split (c ∷ t) s h = elim (Bool-cases (starts_with s (c ∷ t))) [
  | inl here ↦ let found = starts_with-split s (c ∷ t) here in ([], found.0, found.1)
  | inr later ↦
      let found = includes-split t s (ground (arith, h, later)) in
      (c ∷ found.0, found.1, ap (λ u. c ∷ u) found.2)
]

-- The text occurs as a whole.
pub includes_iff :
    (t s : Text)
    → (includes t s ≡ true) ↔ ((before : Text) × (after : Text) × (t ≡ before ++ s ++ after))
includes_iff t s = (includes-split t s, λ found. rw (found.2) (includes-append found.0 s found.1))
