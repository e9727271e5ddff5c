-- ===== src/Js/Text.antt =====
-- Strings: decimal print and parse, the ISO order, and `includes`.
pub mod Decimal
pub mod Includes
use Prim.Native.Char.{code}
use tyz.Prelude.{
  ℕ, ◌≡◌, refl, Bool, true, false, ◌&&◌, ◌||◌, Option, none, some, List, [], ◌∷◌, ◌++◌, String,
  arith, Text, ltb, nat_beq, if◌then◌else◌,
}

-- The code units of a literal (all of those in the source take one unit each).
abbrev pub codes : String → Text
codes String.[] = []
codes (String.◌∷◌ c s) = code c ∷ codes s

-- `a <= b` on strings, in JavaScript and in SQL: by code unit.
abbrev pub text_le : Text → Text → Bool
text_le [] t = true
text_le (a ∷ s) [] = false
text_le (a ∷ s) (b ∷ t) = ltb a b || (nat_beq a b && text_le s t)

-- The rest of a text after a prefix.
abbrev pub strip_prefix : Text → Text → Option Text
strip_prefix [] t = some t
strip_prefix (a ∷ s) [] = none
strip_prefix (a ∷ s) (b ∷ t) = if nat_beq a b then strip_prefix s t else none

abbrev pub starts_with : Text → Text → Bool
starts_with [] t = true
starts_with (a ∷ s) [] = false
starts_with (a ∷ s) (b ∷ t) = nat_beq a b && starts_with s t

-- `t.includes(s)`
abbrev pub includes : Text → Text → Bool
includes [] s = starts_with s []
includes (c ∷ t) s = starts_with s (c ∷ t) || includes t s

pub strip_prefix-append : (s t : Text) → strip_prefix s (s ++ t) ≡ some t
strip_prefix-append [] t = refl
strip_prefix-append (a ∷ s) t = ground (arith, strip_prefix-append s t)

-- The converse: what is left behind a prefix was behind it.
pub strip_prefix-eq-some : (s u : Text) {t : Text} → strip_prefix s u ≡ some t → u ≡ s ++ t
strip_prefix-eq-some [] u h = ground arith
strip_prefix-eq-some (a ∷ s) [] h = ground arith
strip_prefix-eq-some (a ∷ s) (b ∷ u) {t} h = ground (arith, strip_prefix-eq-some s u {t = t})

pub text_le_refl : (s : Text) → text_le s s ≡ true
text_le_refl [] = refl
text_le_refl (a ∷ s) = ground (arith, text_le_refl s)

pub text_le_trans : (s t u : Text) → text_le s t ≡ true → text_le t u ≡ true → text_le s u ≡ true
text_le_trans [] t u h k = refl
text_le_trans (a ∷ s) (b ∷ t) (c ∷ u) h k = ground (arith, text_le_trans s t u)
text_le_trans (a ∷ s) (b ∷ t) [] h k = ground arith
text_le_trans (a ∷ s) [] u h k = ground arith
