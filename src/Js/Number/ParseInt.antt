-- ===== src/Js/Number/ParseInt.antt =====
-- `Number.parseInt(text, 10)`: `none` is NaN, a negative number comes with `true`. The value is
-- exact: no rounding to a double.
use tyz.Prelude.{
  ℕ, ◌≡◌, ap, ◌∙◌, Bool, true, false, ◌&&◌, Option, none, some, [], ◌∷◌, arith, Text, ltb, nat_beq,
  if◌then◌else◌, ◌==◌, nat_eq,
}
use tyz.Js.Text.Decimal.{is_digits, number, show, number-show, is_digits-show}
use tyz.Js.Number.{trim_start, scan_digits}
use tyz.Js.Number.Digits.{trim_start-digits, scan-digits}

unfoldable pub parse_digits : Bool → Text → Option (Bool × ℕ)
parse_digits negative s =
    let r = scan_digits 0 0 s in if r.1 == 0 then none else some (negative && ltb 0 r.0, r.0)

unfoldable pub parse_signed : Text → Option (Bool × ℕ)
unfolding parse_digits
parse_signed [] = none
parse_signed (c ∷ s) =
    if nat_beq c b'-'
    then parse_digits true s
    else if nat_beq c b'+'
    then parse_digits false s
    else parse_digits false (c ∷ s)

unfoldable pub parse_int : Text → Option (Bool × ℕ)
unfolding parse_signed
parse_int s = parse_signed (trim_start s)

parse_int-digits : (s : Text) → is_digits s ≡ true → parse_int s ≡ some (false, number s)
unfolding parse_int parse_signed parse_digits is_digits number
parse_int-digits [] h = absurd (ground (arith, h))
parse_int-digits (c ∷ s) h =
    rw (trim_start-digits c s (ground (arith, h)), scan-digits (c ∷ s) 0 0 h) (ground (arith, h))

-- `parseInt` reads back what `${n}` writes.
pub parse_int-show : (n : ℕ) → parse_int (show n) ≡ some (false, n)
parse_int-show n =
    parse_int-digits (show n) (is_digits-show n) ∙ ap (λ m. some (false, m)) (number-show n)
