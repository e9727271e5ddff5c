-- ===== src/Session.antt =====
-- apps/server/src/utils/crypto.ts and middleware/adminAuth.ts: the password hash, the session secret
-- and the session cookie of an administrator. SHA-256 and HMAC are parameters that give hexadecimal
-- digits; random hexadecimal digits are arguments; times are arguments too.
pub mod Bits
pub mod Cookies
pub mod Setup
pub mod OneShot
use Prim.Native.Nat.{bit_xor, bit_or}
use tyz.Prelude.{
  ℕ, ◌+◌, ◌*◌, ◌-◌, Bool, true, false, not, ◌&&◌, ◌||◌, Option, none, some, List, [], ◌∷◌, ◌++◌,
  Text, find?, length, ltb, if◌then◌else◌, ◌==◌, nat_eq, text_eq, nat_beq, any,
}
use tyz.Js.Text.{codes}
use tyz.Js.Text.Decimal.{show}
use tyz.Js.Number.ParseInt.{parse_int}
use tyz.Db.{Database, SettingRow, UserRow}
use tyz.Tls.{find_setting}
use tyz.Admin.Users.{is_admin}

-- `diff |= a.charCodeAt(i) ^ b.charCodeAt(i)`
unfoldable pub differences : ℕ → Text → Text → ℕ
differences diff [] b = diff
differences diff (x ∷ a) [] = diff
differences diff (x ∷ a) (y ∷ b) = differences (bit_or diff (bit_xor x y)) a b

unfoldable pub timing_safe_equal : Text → Text → Bool
unfolding differences
timing_safe_equal a b = if not (length a == length b) then false else differences 0 a b == 0

-- `text.split(c)`: the part that is being read, then the rest
unfoldable pub split_from : ℕ → Text → Text → List Text
split_from c part [] = part ∷ []
split_from c part (d ∷ s) = elim (nat_beq d c) [
  | true ↦ part ∷ split_from c [] s
  | false ↦ split_from c (part ++ d ∷ []) s
]

abbrev pub split : ℕ → Text → List Text
split c s = split_from c [] s

abbrev pub is_filled : Text → Bool
is_filled [] = false
is_filled (_ ∷ _) = true

abbrev pub session_ttl_s : ℕ
session_ttl_s = 7 * 24 * 60 * 60

abbrev pub session_secret_key : Text
session_secret_key = codes "session_secret"

-- A row of the settings, unless the key has one.
unfoldable pub insert_setting : Text → Text → Text → Database → Database
insert_setting now key value db = elim (find_setting db.app_settings key) [
  | some _ ↦ db
  | none ↦ record db {
    app_settings = db.app_settings ++ record { key = key; value = value; updated_at = now } ∷ [];
  }
]

-- `secretCache`: the value and the time, in milliseconds, at which it was read.
abbrev pub SecretCache : Type 0
SecretCache = Option (Text × ℕ)

unfoldable pub read_secret :
    ℕ → Text → Text → Database → SecretCache → Option Text × SecretCache × Database
unfolding insert_setting find_setting
read_secret now_ms now random db cache = elim (find_setting db.app_settings session_secret_key) [
  | some value ↦ (some value, some (value, now_ms), db)
  | none ↦
      let inserted = insert_setting now session_secret_key random db in
      elim (find_setting inserted.app_settings session_secret_key) [
        | none ↦ (none, cache, inserted)
        | some value ↦ (some value, some (value, now_ms), inserted)
      ]
]

-- The result, the cache and the database; an empty `SESSION_SECRET` is none.
unfoldable pub session_secret :
    Option Text → ℕ → Text → Text → Database → SecretCache → Option Text × SecretCache × Database
unfolding read_secret
session_secret (some (c ∷ secret)) now_ms now random db cache = (some (c ∷ secret), cache, db)
session_secret _ now_ms now random db none = read_secret now_ms now random db none
session_secret _ now_ms now random db (some (value, at)) =
    if ltb (now_ms - at) 60000
    then (some value, some (value, at), db)
    else read_secret now_ms now random db (some (value, at))

unfoldable pub has_admin_account : Database → Bool
has_admin_account db = any is_admin db.users

abbrev find_admin : Database → Text → Option UserRow
find_admin db username = find? (λ (row : UserRow). is_admin row && row.name == username) db.users

module _ (sha256_hex : Text → Text) where
  abbrev pub salted : Text → Text → Text
  salted salt password = sha256_hex (salt ++ codes ":password:" ++ password)

  unfoldable pub hash_password : Text → Text → Text
  hash_password salt password = codes "sha256$" ++ salt ++ codes "$" ++ salted salt password

  unfoldable pub verify_parts : List Text → Text → Bool
  unfolding timing_safe_equal
  verify_parts (scheme ∷ salt ∷ hash ∷ _) password =
      scheme == codes "sha256"
      && (is_filled salt && (is_filled hash && timing_safe_equal (salted salt password) hash))
  verify_parts _ password = false

  unfoldable pub verify_password_hash : Text → Text → Bool
  unfolding verify_parts split_from
  verify_password_hash stored password = verify_parts (split b'$' stored) password

  unfoldable pub verify_admin_credentials : Database → Text → Text → Bool
  unfolding verify_password_hash
  verify_admin_credentials db username password = elim (find_admin db username) [
    | none ↦ false
    | some row ↦ elim row.password_hash [
      | none ↦ false
      | some [] ↦ false
      | some (c ∷ stored) ↦ verify_password_hash (c ∷ stored) password
    ]
  ]

module _ (hmac_hex : Text → Text → Text) where
  abbrev pub signed_part : Text → Text → Text
  signed_part expiry username = expiry ++ codes "." ++ username

  -- The value of the cookie.
  unfoldable pub issue_session_cookie : Text → ℕ → Text → Text
  issue_session_cookie secret now_s username =
      let expiry = show (now_s + session_ttl_s) in
      signed_part expiry username ++ codes "." ++ hmac_hex secret (signed_part expiry username)

  unfoldable pub accept_parts : Text → ℕ → List Text → Option Text
  unfolding parse_int timing_safe_equal
  accept_parts secret now_s (expiry_raw ∷ username ∷ signature ∷ _) = elim (parse_int expiry_raw) [
    | none ↦ none
    | some (negative, expiry) ↦
        if not (is_filled username) || not (is_filled signature) || negative || ltb expiry now_s
        then none
        else if timing_safe_equal signature (hmac_hex secret (signed_part expiry_raw username))
        then some username
        else none
  ]
  accept_parts secret now_s _ = none

  -- The name of the administrator, or `none` where the answer is 401.
  unfoldable pub admin_auth : Text → ℕ → Text → Option Text
  unfolding accept_parts split_from
  admin_auth secret now_s cookie = accept_parts secret now_s (split b'.' cookie)
