-- ===== src/Session/Bits.antt =====
-- apps/server/src/utils/crypto.ts: the comparison that reads all units is equality.
use Prim.Native.Nat.{bit_xor, bit_or, bit_xor-bitwise, bit_or-bitwise, digits, differ, max}
use tyz.Prelude.{
  ℕ, zero, suc, ◌/◌, ◌%◌, ◌≤◌, ◌≡◌, refl, sym, true, [], ◌∷◌, Text, arith, length, ◌↔◌, ◌==◌,
  ==_iff, nat_eq, Bool-cases, inl, inr, ap,
}
use tyz.Session.{differences, timing_safe_equal}

differ-zero : (x y : ℕ) → (differ x y ≡ 0) ↔ (x ≡ y)
differ-zero zero y = (λ h. sym h, λ h. sym h)
differ-zero (suc x) zero = (λ h. h, λ h. h)
differ-zero (suc x) (suc y) = ground (arith, differ-zero x y)

xor_digits-zero : (n a b : ℕ) → a ≤ n → (digits (λ b. b) differ n a b ≡ 0) ↔ (a ≡ b)
xor_digits-zero zero a b l = ground (arith, l)
xor_digits-zero (suc n) zero b l = (λ h. sym h, λ h. sym h)
xor_digits-zero (suc n) (suc a) b l =
    let high = xor_digits-zero n (suc a / 2) (b / 2) (omega arith) in
    let low = differ-zero (suc a % 2) (b % 2) in ground (arith, high, low)

or_digits-zero : (n a b : ℕ) → a ≤ n → (digits (λ b. b) max n a b ≡ 0) ↔ ((a ≡ 0) × (b ≡ 0))
or_digits-zero zero a b l = ground (arith, l)
or_digits-zero (suc n) zero b l = (λ h. (refl, h), λ h. h.1)
or_digits-zero (suc n) (suc a) b l =
    let high = or_digits-zero n (suc a / 2) (b / 2) (omega arith) in ground (arith, high)

xor-zero : (a b : ℕ) → (bit_xor a b ≡ 0) ↔ (a ≡ b)
xor-zero a b =
    let e : bit_xor a b ≡ digits (λ b. b) differ a a b = λ i. bit_xor-bitwise a b i in
    rw e (xor_digits-zero a a b (omega arith))

or-zero : (a b : ℕ) → (bit_or a b ≡ 0) ↔ ((a ≡ 0) × (b ≡ 0))
or-zero a b =
    let e : bit_or a b ≡ digits (λ b. b) max a a b = λ i. bit_or-bitwise a b i in
    rw e (or_digits-zero a a b (omega arith))

differences-zero :
    (diff : ℕ) (a b : Text)
    → length a ≡ length b
    → (differences diff a b ≡ 0) ↔ ((diff ≡ 0) × (a ≡ b))
unfolding differences
differences-zero diff [] [] e = (λ h. (h, refl), λ h. h.0)
differences-zero diff [] (y ∷ b) e = absurd (omega (arith, e))
differences-zero diff (x ∷ a) [] e = absurd (omega (arith, e))
differences-zero diff (x ∷ a) (y ∷ b) e =
    let rest = differences-zero (bit_or diff (bit_xor x y)) a b (omega (arith, e)) in
    let both = or-zero diff (bit_xor x y) in
    let same = xor-zero x y in
    (
      λ h.
          let ok = rest.0 h in let units = both.0 ok.0 in (units.0, rw (same.0 units.1, ok.1) refl),
      λ h. rest.1 (both.1 (h.0, same.1 (grind (arith, h.1))), grind (arith, h.1)),
    )

-- The comparison of two texts, unit by unit without an early exit, is equality.
pub timing_safe_equal_iff : (a b : Text) → (timing_safe_equal a b ≡ true) ↔ (a ≡ b)
unfolding timing_safe_equal
timing_safe_equal_iff a b = elim (Bool-cases (length a == length b)) [
  | inl same ↦
      let zero_diff = differences-zero 0 a b ((==_iff (length a) (length b)).0 same) in
      rw same (
        λ h. (zero_diff.0 ((==_iff (differences 0 a b) 0).0 h)).1,
        λ h. (==_iff (differences 0 a b) 0).1 (zero_diff.1 (refl, h)),
      )
  | inr other ↦
      rw other (λ h. absurd (ground (arith, h)), λ h. absurd (ground (arith, other, ap length h)))
]
