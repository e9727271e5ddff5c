-- ===== src/Js/Number/Digits.antt =====
-- `Number` of a text of digits is the number that it writes.
use tyz.Prelude.{
  ℕ, ◌+◌, ◌-◌, ◌*◌, ◌≡◌, refl, ap, ◌∙◌, true, false, some, [], ◌∷◌, arith, Text, all, length,
}
use tyz.Js.Text.Decimal.{
  is_digit, is_digits, number_from, number, show, number-show, is_digits-show,
}
use tyz.Js.Number.{
  is_space, trim_start, cons_trimmed, trim_end, scan_digits, decimal, unsigned, prefixed, to_number,
}

digit_no_space : (c : ℕ) → is_digit c ≡ true → is_space c ≡ false
unfolding is_space
digit_no_space c h = ground arith

pub trim_start-digits : (c : ℕ) (s : Text) → is_digit c ≡ true → trim_start (c ∷ s) ≡ c ∷ s
unfolding trim_start
trim_start-digits c s h = rw (digit_no_space c h)

trim_end-digits : (s : Text) → all is_digit s ≡ true → trim_end s ≡ s
unfolding trim_end
trim_end-digits [] h = refl
trim_end-digits (c ∷ []) h = rw (digit_no_space c (ground arith))
trim_end-digits (c ∷ d ∷ s) h = ap (cons_trimmed c) (trim_end-digits (d ∷ s) (ground arith))

pub scan-digits :
    (s : Text) (n count : ℕ)
    → all is_digit s ≡ true
    → scan_digits n count s ≡ (number_from n s, count + length s, [])
unfolding scan_digits number_from
scan-digits [] n count h = ground arith
scan-digits (c ∷ s) n count h = ground (arith, scan-digits s (n * 10 + (c - b'0')) (count + 1))

decimal-digits :
    (c : ℕ) (s : Text) → all is_digit (c ∷ s) ≡ true → decimal (c ∷ s) ≡ some (number (c ∷ s))
unfolding decimal number
decimal-digits c s h = rw (scan-digits (c ∷ s) 0 0 h) (ground arith)

-- No digit is a letter that names a base.
prefixed-digits :
    (c d : ℕ) (s : Text)
    → all is_digit (c ∷ d ∷ s) ≡ true
    → prefixed c d s ≡ some (number (c ∷ d ∷ s))
unfolding prefixed
prefixed-digits c d s h = ground (arith, decimal-digits c (d ∷ s) h)

unsigned-digits :
    (c : ℕ) (s : Text) → all is_digit (c ∷ s) ≡ true → unsigned (c ∷ s) ≡ some (number (c ∷ s))
unfolding unsigned
unsigned-digits c [] h = decimal-digits c [] h
unsigned-digits c (d ∷ s) h = ground (arith, prefixed-digits c d s h, decimal-digits c (d ∷ s) h)

pub to_number-digits : (s : Text) → is_digits s ≡ true → to_number s ≡ some (number s)
unfolding to_number is_digits
to_number-digits [] h = cc
to_number-digits (c ∷ s) h =
    rw (trim_start-digits c s (ground arith), trim_end-digits (c ∷ s) h)
      (ground (arith, unsigned-digits c s h))

-- `Number(String(n))` is `n`.
pub to_number-show : (n : ℕ) → to_number (show n) ≡ some n
to_number-show n = to_number-digits (show n) (is_digits-show n) ∙ ap some (number-show n)
