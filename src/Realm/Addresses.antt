-- ===== src/Realm/Addresses.antt =====
-- `parseTargetAddress` against `endpointAddress`, which writes what it reads.
use tyz.Prelude.{
  ℕ, ◌≤◌, ◌≡◌, refl, ◌∙◌, ap, sym, Bool, true, false, not, ◌&&◌, none, some, [], ◌∷◌, ◌++◌, Text,
  arith, nat_beq, any, all, Bool-cases, inl, inr, append_assoc,
}
use tyz.Js.Text.Decimal.{is_digit, is_digits, show, is_digits-show}
use tyz.Js.Number.{to_number}
use tyz.Js.Number.Digits.{to_number-show}
use tyz.Realm.{
  endpoint_address, split_last_colon, drop_open, drop_close, valid_target, parse_target_address,
}

no_colon : (s : Text) → all is_digit s ≡ true → split_last_colon s ≡ none
unfolding split_last_colon
no_colon [] h = refl
no_colon (c ∷ s) h = ground (arith, no_colon s)

split-append :
    (host s : Text) → all is_digit s ≡ true → split_last_colon (host ++ b':' ∷ s) ≡ some (host, s)
unfolding split_last_colon
split-append [] s h = ground (arith, no_colon s h)
split-append (c ∷ host) s h = rw (split-append host s h) refl

drop_close-append : (host : Text) → drop_close (host ++ b']' ∷ []) ≡ host
unfolding drop_close
drop_close-append [] = refl
drop_close-append (c ∷ []) = refl
drop_close-append (c ∷ d ∷ s) = rw (drop_close-append (d ∷ s)) refl

-- The host has no bracket at its start or its end that would be taken for one of IPv6.
abbrev pub is_bare : Text → Bool
is_bare host = not (any (λ c. nat_beq c b'[') host) && not (any (λ c. nat_beq c b']') host)

drop_close-bare : (host : Text) → any (λ c. nat_beq c b']') host ≡ false → drop_close host ≡ host
unfolding drop_close
drop_close-bare [] h = refl
drop_close-bare (c ∷ []) h = ground arith
drop_close-bare (c ∷ d ∷ s) h = ground (arith, drop_close-bare (d ∷ s))

drop_open-bare : (host : Text) → any (λ c. nat_beq c b'[') host ≡ false → drop_open host ≡ host
unfolding drop_open
drop_open-bare [] h = refl
drop_open-bare (c ∷ s) h = ground arith

-- What `parse_target_address` does with its two halves.
parse-halves :
    (c : ℕ) (host s : Text)
    → is_digits s ≡ true
    → parse_target_address ((c ∷ host) ++ b':' ∷ s)
      ≡ valid_target (drop_close (drop_open (c ∷ host))) (to_number s)
unfolding parse_target_address is_digits
parse-halves c host (d ∷ s) h = rw (split-append (c ∷ host) (d ∷ s) h) refl
parse-halves c host [] h = ground arith

valid-some :
    (c : ℕ) (host : Text) (port : ℕ)
    → 1 ≤ port
    → port ≤ 65535
    → valid_target (c ∷ host) (some port) ≡ some (record { host = c ∷ host; port = port })
unfolding valid_target
valid-some c host port l h = ground arith

-- The host of `[host]:port`.
bracketed :
    (c : ℕ) (host : Text) (port : ℕ)
    → parse_target_address (b'[' ∷ (c ∷ host) ++ (b']' ∷ b':' ∷ show port))
      ≡ valid_target (c ∷ host) (some port)
unfolding drop_open
bracketed c host port =
    ap parse_target_address (sym (append_assoc (b'[' ∷ c ∷ host) (b']' ∷ []) (b':' ∷ show port)))
    ∙ parse-halves b'[' ((c ∷ host) ++ b']' ∷ []) (show port) (is_digits-show port)
    ∙ rw (to_number-show port, drop_close-append (c ∷ host)) refl

-- Reading back the address that the panel writes for a host and a port gives the host and the port:
-- for a host that is not empty and has no bracket of its own, be it a name or an IPv6 address (which
-- is written in brackets), and a port from 1 to 65535.
pub parse_target_address-endpoint_address :
    (c : ℕ) (host : Text) (port : ℕ)
    → is_bare (c ∷ host) ≡ true
    → 1 ≤ port
    → port ≤ 65535
    → parse_target_address (endpoint_address (c ∷ host) port)
      ≡ some (record { host = c ∷ host; port = port })
unfolding endpoint_address
parse_target_address-endpoint_address c host port bare l h =
    elim (Bool-cases (any (λ x. nat_beq x b':') (c ∷ host))) [
      | inl colon ↦ rw (colon, append_assoc) (bracketed c host port ∙ valid-some c host port l h)
      | inr plain ↦
          rw (plain, append_assoc)
            (parse-halves c host (show port) (is_digits-show port)
              ∙ rw
                  (
                    drop_open-bare (c ∷ host) (ground arith),
                    drop_close-bare (c ∷ host) (ground arith),
                    to_number-show port,
                  )
                  (valid-some c host port l h))
    ]
