-- ===== src/Tests/SessionRuns.antt =====
-- A first administrator is set up and signs in. The two hash functions are stood in for by one that
-- writes letters from `a` to `f`.
use tyz.Prelude.{
  ℕ, ◌+◌, ◌%◌, ◌<◌, ◌≤◌, ◌≡◌, refl, true, false, none, some, List, [], ◌∷◌, ◌++◌, Text, arith, ◌↔◌,
  map, leb, if◌then◌else◌,
}
use tyz.Js.Text.{codes}
use tyz.Js.Number
use tyz.Js.Number.ParseInt.{parse_int}
use tyz.Db.{Database}
use tyz.Admin.{refuse}
use tyz.Session.{
  split, is_filled, salted, timing_safe_equal, hash_password, verify_password_hash, session_ttl_s,
  signed_part, issue_session_cookie, admin_auth, has_admin_account,
}
use tyz.Session.Bits.{timing_safe_equal_iff}
use tyz.Session.Cookies.{
  Lacks, verify_password_hash-hash_password, admin_auth-issue_session_cookie, admin_auth-signed,
}
use tyz.Session.Setup.{Credentials, setup}
use tyz.Session.OneShot.{setup-once}
use tyz.Tests.Fixtures.{time, db}

abbrev letters : Text → Text
letters t = b'a' ∷ map (λ c. b'a' + c % 6) t

map-Lacks : (sep : ℕ) (t : Text) → sep < b'a' → Lacks sep (map (λ c. b'a' + c % 6) t)
map-Lacks sep [] h = refl
map-Lacks sep (c ∷ t) h = ground (arith, map-Lacks sep t h)

letters-Lacks :
    (sep : ℕ) (t : Text) → sep < b'a' → Lacks sep (letters t) × (is_filled (letters t) ≡ true)
letters-Lacks sep t h = (ground (arith, map-Lacks sep t h), refl)

abbrev signature : Text → Text → Text
signature key t = letters (key ++ t)

timing_safe_equal_iff_example :
    (timing_safe_equal (codes "ab") (codes "ac") ≡ true) ↔ (codes "ab" ≡ codes "ac")
timing_safe_equal_iff_example = timing_safe_equal_iff (codes "ab") (codes "ac")

verify_password_hash-hash_password_example :
    (verify_password_hash letters
        (hash_password letters (codes "5a17") (codes "secret1"))
        (codes "secret2")
      ≡ true)
    ↔ (salted letters (codes "5a17") (codes "secret2")
        ≡ salted letters (codes "5a17") (codes "secret1"))
verify_password_hash-hash_password_example =
    verify_password_hash-hash_password letters (codes "5a17") (codes "secret1") (codes "secret2")
      refl refl (λ t. letters-Lacks b'$' t (omega arith))

admin_auth-issue_session_cookie_example :
    admin_auth signature
      (codes "key")
      1786854100
      (issue_session_cookie signature (codes "key") 1786854000 (codes "root"))
    ≡ (if leb 1786854100 (1786854000 + session_ttl_s) then some (codes "root") else none)
admin_auth-issue_session_cookie_example =
    admin_auth-issue_session_cookie signature (codes "key")
      (λ key t. letters-Lacks b'.' (key ++ t) (omega arith)) 1786854000 1786854100 (codes "root")
      refl refl

abbrev cookie : Text
cookie = codes "99.root." ++ signature (codes "key") (codes "99.root")

admin_auth-signed_example :
    (expiry_raw : Text) × (rest : List Text) × (expiry : ℕ) × (split b'.' cookie
      ≡ expiry_raw
        ∷ codes "root"
        ∷ signature (codes "key") (signed_part signature expiry_raw (codes "root"))
        ∷ rest)
    × (parse_int expiry_raw ≡ some (false, expiry))
    × (98 ≤ expiry)
unfolding admin_auth Number.trim_start Number.scan_digits
admin_auth-signed_example =
    admin_auth-signed signature (codes "key") (λ key t. letters-Lacks b'.' (key ++ t) (omega arith))
      98 cookie (codes "root") refl

abbrev root : Credentials
root = record { username = codes "root"; password = codes "password" }

abbrev first : Database
first =
    (setup letters signature (some (codes "key")) 0 0 time (some root) 1 (codes "5a17") (codes "r")
      (codes "q") db none).db

setup-once_example :
    (has_admin_account db ≡ false)
    × (setup letters signature
          (some (codes "key"))
          9
          9
          time
          (some root)
          2
          (codes "5a18")
          (codes "s")
          (codes "p")
          first
          none
        ≡ refuse 409 (codes "管理员账号已存在，请直接登录") first)
unfolding setup issue_session_cookie
setup-once_example =
    setup-once letters signature (some (codes "key")) 0 0 time root 1 (codes "5a17") (codes "r")
      (codes "q") db none (issue_session_cookie signature (codes "key") 0 (codes "root")) 9 9 time
      root 2 (codes "5a18") (codes "s") (codes "p") none refl
