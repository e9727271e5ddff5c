-- ===== src/Session/Cookies.antt =====
-- apps/server/src/middleware/adminAuth.ts and utils/crypto.ts: what is issued is accepted, and
-- nothing else.
use tyz.Prelude.{
  ℕ, ◌+◌, ◌≤◌, ◌≡◌, refl, sym, ap, ◌∙◌, true, false, not, ◌↔◌, none, some, List, [], ◌∷◌, ◌++◌,
  append_assoc, append-nil, Text, arith, all, ltb, leb, nat_beq, if◌then◌else◌, nat_eq, text_eq,
  Bool-cases, Option-cases, inl, inr, subst,
}
use tyz.Js.Text.{codes}
use tyz.Js.Text.Decimal.{is_digit, is_digits, show, is_digits-show}
use tyz.Js.Number.ParseInt.{parse_int, parse_int-show}
use tyz.Session.{
  split_from, split, is_filled, timing_safe_equal, salted, hash_password, verify_parts,
  verify_password_hash, session_ttl_s, signed_part, issue_session_cookie, accept_parts, admin_auth,
}
use tyz.Session.Bits.{timing_safe_equal_iff}

-- A text without a unit.
abbrev pub Lacks : ℕ → Text → Type 0
Lacks c s = all (λ d. not (nat_beq d c)) s ≡ true

split_from-Lacks : (c : ℕ) (part s : Text) → Lacks c s → split_from c part s ≡ (part ++ s) ∷ []
unfolding split_from
split_from-Lacks c part [] h = rw (append-nil part) refl
split_from-Lacks c part (d ∷ s) h =
    let off : nat_beq d c ≡ false = ground (arith, h) in
    let rest : Lacks c s = ground (arith, h) in
    rw (split_from, off)
      (split_from-Lacks c (part ++ d ∷ []) s rest ∙ ap (λ x. x ∷ []) (append_assoc part (d ∷ []) s))

split_from-at :
    (c : ℕ) (part s t : Text)
    → Lacks c s
    → split_from c part (s ++ c ∷ t) ≡ (part ++ s) ∷ split_from c [] t
unfolding split_from
split_from-at c part [] t h =
    let here : nat_beq c c ≡ true = ground arith in rw (split_from, here, append-nil part) refl
split_from-at c part (d ∷ s) t h =
    let off : nat_beq d c ≡ false = ground (arith, h) in
    let rest : Lacks c s = ground (arith, h) in
    rw (split_from, off)
      (split_from-at c (part ++ d ∷ []) s t rest
        ∙ ap (λ x. x ∷ split_from c [] t) (append_assoc part (d ∷ []) s))

-- Three parts without the separator.
pub split-three :
    (c : ℕ) (r s t : Text)
    → Lacks c r
    → Lacks c s
    → Lacks c t
    → split c (r ++ (c ∷ (s ++ (c ∷ t)))) ≡ r ∷ s ∷ t ∷ []
split-three c r s t lr ls lt =
    split_from-at c [] r (s ++ (c ∷ t)) lr
    ∙ ap (◌∷◌ r) (split_from-at c [] s t ls ∙ ap (◌∷◌ s) (split_from-Lacks c [] t lt))

-- The three parts as the code writes them, one after the other.
joined_parts :
    (c : ℕ) (r s t : Text) → (((r ++ (c ∷ [])) ++ s) ++ (c ∷ [])) ++ t ≡ r ++ (c ∷ (s ++ (c ∷ t)))
joined_parts c r s t =
    append_assoc ((r ++ (c ∷ [])) ++ s) (c ∷ []) t
    ∙ append_assoc (r ++ (c ∷ [])) s (c ∷ t)
    ∙ append_assoc r (c ∷ []) (s ++ (c ∷ t))

digits-Lacks : (s : Text) → all is_digit s ≡ true → Lacks b'.' s
digits-Lacks [] h = refl
digits-Lacks (c ∷ s) h = ground (arith, digits-Lacks s)

show-Lacks : (n : ℕ) → Lacks b'.' (show n)
unfolding is_digits
show-Lacks n = digits-show (show n) (is_digits-show n)
  where
    digits-show : (s : Text) → is_digits s ≡ true → Lacks b'.' s
    digits-show [] h = refl
    digits-show (c ∷ s) h = digits-Lacks (c ∷ s) h

-- A stored password hash accepts exactly the passwords with the same salted digest, if the salt and
-- the digest are filled and have no separator, as hexadecimal digits have none.
pub verify_password_hash-hash_password :
    (sha256_hex : Text → Text) (salt password attempt : Text)
    → Lacks b'$' salt
    → is_filled salt ≡ true
    → ((t : Text) → Lacks b'$' (sha256_hex t) × (is_filled (sha256_hex t) ≡ true))
    → (verify_password_hash sha256_hex (hash_password sha256_hex salt password) attempt ≡ true)
      ↔ (salted sha256_hex salt attempt ≡ salted sha256_hex salt password)
unfolding verify_password_hash verify_parts hash_password
verify_password_hash-hash_password sha256_hex salt password attempt ls fs hex =
    let digest = salted sha256_hex salt password in
    let parts =
      ap (split b'$') (joined_parts b'$' (codes "sha256") salt digest)
      ∙ split-three b'$' (codes "sha256") salt digest refl ls
          (hex (salt ++ codes ":password:" ++ password)).0 in
    let same = timing_safe_equal_iff (salted sha256_hex salt attempt) digest in
    subst
      (λ parts.
        (verify_parts sha256_hex parts attempt ≡ true) ↔ (salted sha256_hex salt attempt ≡ digest))
      (sym parts) (rw (verify_parts, fs, (hex (salt ++ codes ":password:" ++ password)).1) same)

module _ (hmac_hex : Text → Text → Text) (secret : Text)
    (hex : (key t : Text) → Lacks b'.' (hmac_hex key t) × (is_filled (hmac_hex key t) ≡ true)) where
  split-cookie :
      (now_s : ℕ) (username : Text)
      → Lacks b'.' username
      → split b'.' (issue_session_cookie hmac_hex secret now_s username)
        ≡ show (now_s + session_ttl_s)
          ∷ username
          ∷ hmac_hex secret (signed_part hmac_hex (show (now_s + session_ttl_s)) username)
          ∷ []
  unfolding issue_session_cookie
  split-cookie now_s username lu =
      let expiry = show (now_s + session_ttl_s) in
      let signature = hmac_hex secret (signed_part hmac_hex expiry username) in
      ap (split b'.') (joined_parts b'.' expiry username signature)
      ∙ split-three b'.' expiry username signature (show-Lacks _) lu (hex _ _).0

  -- A cookie that was issued is accepted, for the name that it was issued to, until the seven days
  -- are over, and not a second longer; the name is filled and has no dot, and a signature is
  -- filled and has none either.
  pub admin_auth-issue_session_cookie :
      (issued_s now_s : ℕ) (username : Text)
      → Lacks b'.' username
      → is_filled username ≡ true
      → admin_auth hmac_hex secret now_s (issue_session_cookie hmac_hex secret issued_s username)
        ≡ (if leb now_s (issued_s + session_ttl_s) then some username else none)
  unfolding admin_auth accept_parts
  admin_auth-issue_session_cookie issued_s now_s username lu fu =
      let expiry = issued_s + session_ttl_s in
      let message = signed_part hmac_hex (show expiry) username in
      let same =
        (timing_safe_equal_iff (hmac_hex secret message) (hmac_hex secret message)).1 refl in
      rw
        (
          admin_auth,
          split-cookie issued_s username lu,
          accept_parts,
          parse_int-show expiry,
          fu,
          (hex secret message).1,
          same,
        )
        (ground arith)

  signed_parts :
      (now_s : ℕ) (parts : List Text) (username : Text)
      → accept_parts hmac_hex secret now_s parts ≡ some username
      → (expiry_raw : Text) × (rest : List Text) × (expiry : ℕ) × (parts
          ≡ expiry_raw
            ∷ username
            ∷ hmac_hex secret (signed_part hmac_hex expiry_raw username)
            ∷ rest)
        × (parse_int expiry_raw ≡ some (false, expiry))
        × (now_s ≤ expiry)
  unfolding accept_parts
  signed_parts now_s [] username h = absurd (ground (arith, h))
  signed_parts now_s (e ∷ []) username h = absurd (ground (arith, h))
  signed_parts now_s (e ∷ u ∷ []) username h = absurd (ground (arith, h))
  signed_parts now_s (e ∷ u ∷ s ∷ rest) username h =
      let signature = hmac_hex secret (signed_part hmac_hex e u) in
      elim (Option-cases (parse_int e)) [
        | inl bad ↦ absurd (ground (arith, h, bad))
        | inr ((true, expiry), e_is) ↦ absurd (ground (arith, h, e_is))
        | inr ((false, expiry), e_is) ↦ elim (Bool-cases (timing_safe_equal s signature)) [
          | inr forged ↦ absurd (ground (arith, h, e_is, forged))
          | inl same ↦
              let name : u ≡ username = ground (arith, h, e_is, same) in
              let late : ltb expiry now_s ≡ false = ground (arith, h, e_is, same) in
              (
                e,
                rest,
                expiry,
                rw (← name, (timing_safe_equal_iff s signature).0 same) refl,
                e_is,
                ground (arith, late),
              )
        ]
      ]

  -- Every cookie that is accepted carries, in its first three parts, a time that is not past, the
  -- name that it is accepted for, and the signature of those two under the secret.
  pub admin_auth-signed :
      (now_s : ℕ) (cookie username : Text)
      → admin_auth hmac_hex secret now_s cookie ≡ some username
      → (expiry_raw : Text) × (rest : List Text) × (expiry : ℕ) × (split b'.' cookie
          ≡ expiry_raw
            ∷ username
            ∷ hmac_hex secret (signed_part hmac_hex expiry_raw username)
            ∷ rest)
        × (parse_int expiry_raw ≡ some (false, expiry))
        × (now_s ≤ expiry)
  unfolding admin_auth
  admin_auth-signed now_s cookie username h = signed_parts now_s (split b'.' cookie) username h
