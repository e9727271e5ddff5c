-- ===== src/Js/Number.antt =====
-- `Number(text)`, as far as the program asks: the integer that the text denotes, if it is a
-- non-negative one. `none` stands for NaN, the infinities, and for negative and fractional values.
-- The value is exact: no rounding to a double, which changes numbers of more than 15 digits only.
pub mod Digits
pub mod ParseInt
use tyz.Prelude.{
  ℕ, ◌+◌, ◌-◌, ◌*◌, ◌/◌, ◌%◌, ◌^◌, ◌≡◌, refl, ap, ◌∙◌, Bool, true, false, ◌&&◌, ◌||◌, Option, none,
  some, List, [], ◌∷◌, arith, Text, ltb, leb, nat_beq, if◌then◌else◌, all, Bool-cases, inl, inr,
}
use tyz.Js.Text.Decimal.{
  is_digit, is_digits, number_from, number, show, number-show, is_digits-show,
}

-- white space and line ends
unfoldable pub is_space : ℕ → Bool
is_space c =
    (leb 9 c && leb c 13)
    || nat_beq c 32
    || nat_beq c 160
    || nat_beq c 0x1680
    || (leb 0x2000 c && leb c 0x200a)
    || nat_beq c 0x2028
    || nat_beq c 0x2029
    || nat_beq c 0x202f
    || nat_beq c 0x205f
    || nat_beq c 0x3000
    || nat_beq c 0xfeff

unfoldable pub trim_start : Text → Text
unfolding is_space
trim_start [] = []
trim_start (c ∷ s) = let rest = trim_start s in if is_space c then rest else c ∷ s

unfoldable pub cons_trimmed : ℕ → Text → Text
unfolding is_space
cons_trimmed c [] = if is_space c then [] else c ∷ []
cons_trimmed c (d ∷ s) = c ∷ d ∷ s

unfoldable pub trim_end : Text → Text
unfolding cons_trimmed
trim_end [] = []
trim_end (c ∷ s) = cons_trimmed c (trim_end s)

-- The digits in front: their value behind `n`, how many they are, and what follows.
unfoldable pub scan_digits : ℕ → ℕ → Text → ℕ × ℕ × Text
scan_digits n count [] = (n, count, [])
scan_digits n count (c ∷ s) =
    let rest = scan_digits (n * 10 + (c - b'0')) (count + 1) s in
    if is_digit c then rest else (n, count, c ∷ s)

-- The value of a digit in a base up to 16.
unfoldable pub digit_value : ℕ → ℕ
digit_value c =
    if is_digit c
    then c - b'0'
    else if leb b'a' c && leb c b'f'
    then c - b'a' + 10
    else if leb b'A' c && leb c b'F'
    then c - b'A' + 10
    else 16

unfoldable pub radix_from : ℕ → ℕ → Text → Option ℕ
unfolding digit_value
radix_from base n [] = some n
radix_from base n (c ∷ s) =
    let rest = radix_from base (n * base + digit_value c) s in
    if ltb (digit_value c) base then rest else none

unfoldable pub radix : ℕ → Text → Option ℕ
unfolding radix_from
radix base [] = none
radix base (c ∷ s) = radix_from base 0 (c ∷ s)

-- `m * 10 ^ (e - scale)`, if it is an integer.
unfoldable pub scaled : ℕ → ℕ → ℕ → Option ℕ
scaled m e scale =
    if leb scale e
    then some (m * 10 ^ (e - scale))
    else if nat_beq (m % 10 ^ (scale - e)) 0
    then some (m / 10 ^ (scale - e))
    else none

unfoldable pub is_exponent : ℕ → Bool
is_exponent c = nat_beq c b'e' || nat_beq c b'E'

-- The digits of an exponent after its sign, up to the end.
unfoldable pub exponent_digits : Bool → ℕ → ℕ → ℕ × ℕ × Text → Option ℕ
unfolding scaled
exponent_digits negative m scale (e, count, []) =
    if nat_beq count 0 then none else if negative then scaled m 0 (scale + e) else scaled m e scale
exponent_digits negative m scale (e, count, c ∷ s) = none

unfoldable pub signed_exponent : ℕ → ℕ → Text → Option ℕ
unfolding exponent_digits scan_digits
signed_exponent m scale [] = none
signed_exponent m scale (c ∷ s) =
    if nat_beq c b'-'
    then exponent_digits true m scale (scan_digits 0 0 s)
    else if nat_beq c b'+'
    then exponent_digits false m scale (scan_digits 0 0 s)
    else exponent_digits false m scale (scan_digits 0 0 (c ∷ s))

-- What follows the digits of `m`, of which `scale` stand behind the point.
unfoldable pub exponent_part : ℕ → ℕ → Text → Option ℕ
unfolding scaled is_exponent signed_exponent
exponent_part m scale [] = scaled m 0 scale
exponent_part m scale (c ∷ s) = if is_exponent c then signed_exponent m scale s else none

-- `count` digits stood in front of the point: on one side of it there is a digit.
unfoldable pub fraction_part : ℕ → ℕ × ℕ × Text → Option ℕ
unfolding exponent_part
fraction_part count (m, scale, s) =
    if nat_beq (count + scale) 0 then none else exponent_part m scale s

unfoldable pub integer_part : ℕ × ℕ × Text → Option ℕ
unfolding fraction_part
integer_part (m, count, []) = fraction_part count (m, 0, [])
integer_part (m, count, c ∷ s) =
    if nat_beq c b'.'
    then fraction_part count (scan_digits m 0 s)
    else fraction_part count (m, 0, c ∷ s)

unfoldable pub decimal : Text → Option ℕ
unfolding integer_part scan_digits
decimal s = integer_part (scan_digits 0 0 s)

-- `-0` is 0; other negative numbers are out.
unfoldable pub negated : Option ℕ → Option ℕ
negated none = none
negated (some n) = if nat_beq n 0 then some 0 else none

unfoldable pub prefixed : ℕ → ℕ → Text → Option ℕ
unfolding radix decimal
prefixed zero_digit letter s =
    if nat_beq letter b'x' || nat_beq letter b'X'
    then radix 16 s
    else if nat_beq letter b'o' || nat_beq letter b'O'
    then radix 8 s
    else if nat_beq letter b'b' || nat_beq letter b'B'
    then radix 2 s
    else decimal (zero_digit ∷ letter ∷ s)

unfoldable pub unsigned : Text → Option ℕ
unfolding prefixed
unsigned [] = decimal []
unsigned (c ∷ []) = decimal (c ∷ [])
unsigned (c ∷ d ∷ s) = if nat_beq c b'0' then prefixed c d s else decimal (c ∷ d ∷ s)

-- The empty text is 0.
unfoldable pub trimmed_number : Text → Option ℕ
unfolding unsigned negated
trimmed_number [] = some 0
trimmed_number (c ∷ s) =
    if nat_beq c b'-'
    then negated (decimal s)
    else if nat_beq c b'+'
    then decimal s
    else unsigned (c ∷ s)

unfoldable pub to_number : Text → Option ℕ
unfolding trimmed_number trim_start trim_end
to_number s = trimmed_number (trim_end (trim_start s))
