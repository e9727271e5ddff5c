-- ===== src/Js/Text/Decimal.antt =====
-- A non-negative integer in decimal: `${n}`, `\d+` and `Number` of digits.
use tyz.Prelude.{
  ℕ, zero, suc, ◌+◌, ◌*◌, ◌-◌, ◌/◌, ◌%◌, ◌<◌, ◌≡◌, refl, Bool, true, false, ◌&&◌, [], ◌∷◌, arith,
  Text, ltb, leb, if◌then◌else◌, all,
}

abbrev pub is_digit : ℕ → Bool
is_digit c = leb b'0' c && leb c b'9'

-- `/^\d+$/`
unfoldable pub is_digits : Text → Bool
is_digits [] = false
is_digits (c ∷ s) = all is_digit (c ∷ s)

unfoldable pub number_from : ℕ → Text → ℕ
number_from n [] = n
number_from n (c ∷ s) = number_from (n * 10 + (c - b'0')) s

-- `Number` of a text of digits
unfoldable pub number : Text → ℕ
unfolding number_from
number s = number_from 0 s

unfoldable pub emit : ℕ → ℕ → Text → Text
emit zero n out = out
emit (suc f) n out =
    let rest = emit f (n / 10) ((b'0' + n % 10) ∷ out) in
    if ltb n 10 then (b'0' + n) ∷ out else rest

-- `${n}`; more rounds than digits
unfoldable pub show : ℕ → Text
unfolding emit
show n = emit (suc n) n []

number_from-emit : (f n : ℕ) (out : Text) → n < f → number_from 0 (emit f n out) ≡ number_from n out
unfolding number_from emit
number_from-emit zero n out h = absurd (omega arith)
number_from-emit (suc f) n out h =
    let whole : n / 10 * 10 + (b'0' + n % 10 - b'0') ≡ n = omega arith in
    let one : 0 * 10 + (b'0' + n - b'0') ≡ n = omega arith in
    ground (arith, number_from-emit f (n / 10) ((b'0' + n % 10) ∷ out))

pub number-show : (n : ℕ) → number (show n) ≡ n
unfolding number show
number-show n = number_from-emit (suc n) n [] (omega arith)

is_digits-emit :
    (f n : ℕ) (out : Text) → n < f → all is_digit out ≡ true → is_digits (emit f n out) ≡ true
unfolding emit is_digits
is_digits-emit zero n out l h = absurd (omega arith)
is_digits-emit (suc f) n out l h = ground (arith, is_digits-emit f (n / 10) ((b'0' + n % 10) ∷ out))

pub is_digits-show : (n : ℕ) → is_digits (show n) ≡ true
unfolding show
is_digits-show n = is_digits-emit (suc n) n [] (omega arith) refl
