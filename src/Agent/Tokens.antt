-- ===== src/Agent/Tokens.antt =====
-- apps/server/src/middleware/nodeAuth.ts: a token that is rotated away dies with the cache.
use tyz.Prelude.{
  ℕ, ◌+◌, ◌≤◌, ◌≡◌, refl, sym, ap, ◌∙◌, ◌⊎◌, ==-refl, ==_iff, ◌==◌, true, false, none, some, [],
  ◌∷◌, Text, arith, ltb, text_eq, Bool-cases, Option-cases, inl, inr, All, All-imp,
}
use tyz.Js.Map
use tyz.Js.Map.{All-set, All-get}
use tyz.Js.Text.{codes}
use tyz.Db.{Database, NodeRow}
use tyz.Admin.{refused}
use tyz.Agent.{CachedNode, TokenCache, node_of_token, look_up, node_of_bearer}

-- What requests make of the cache of an isolate, from its start: whatever nodes there are at each
-- request, with a clock that only runs forward.
pub data History : ℕ → TokenCache → Type 0 where
  started : History 0 []
  requested :
      {t : ℕ} {cache : TokenCache} (now_ms : ℕ) (db : Database) (token : Text)
      → History t cache
      → t ≤ now_ms
      → History now_ms (node_of_bearer now_ms db cache token).1

-- The same from a moment on at which no node has the token `gone` any more.
pub data Since (gone : Text) (rotated_ms : ℕ) (before : TokenCache) : ℕ → TokenCache → Type 0 where
  rotation : Since gone rotated_ms before rotated_ms before
  requested_since :
      {t : ℕ} {cache : TokenCache} (now_ms : ℕ) (db : Database) (token : Text)
      → Since gone rotated_ms before t cache
      → t ≤ now_ms
      → node_of_token db gone ≡ none
      → Since gone rotated_ms before now_ms (node_of_bearer now_ms db cache token).1

-- Every entry of the token expires by a moment.
abbrev ExpiresBy : ℕ → Text → TokenCache → Type 0
ExpiresBy end token cache =
    All (λ entry. (entry.0 == token) ≡ true → entry.1.expires_at ≤ end) cache

later-ExpiresBy :
    (a b : ℕ) (token : Text) (cache : TokenCache)
    → a ≤ b
    → ExpiresBy a token cache
    → ExpiresBy b token cache
later-ExpiresBy a b token cache l h = All-imp _ _ (λ entry e same. omega (arith, l, e same)) cache h

-- A request keeps the moment, if a new entry of the token would not outlive it.
node_of_bearer-ExpiresBy :
    (end now_ms : ℕ) (db : Database) (cache : TokenCache) (gone token : Text)
    → (node_of_token db gone ≡ none) ⊎ (now_ms + 60000 ≤ end)
    → ExpiresBy end gone cache
    → ExpiresBy end gone (node_of_bearer now_ms db cache token).1
unfolding node_of_bearer look_up
node_of_bearer-ExpiresBy end now_ms db cache gone [] ok h = h
node_of_bearer-ExpiresBy end now_ms db cache gone (c ∷ token) ok h =
    let looked : ExpiresBy end gone (look_up now_ms db cache (c ∷ token)).1 =
      elim (Option-cases (node_of_token db (c ∷ token))) [
        | inl missing ↦ rw (look_up, missing) h
        | inr (row, found) ↦
            rw (look_up, found)
              (All-set (λ entry. (entry.0 == gone) ≡ true → entry.1.expires_at ≤ end) cache
                (c ∷ token) _ h
                (λ same. elim ok [
                  | inl absent ↦ absurd (
                      none-some (
                        sym absent
                        ∙ ap (node_of_token db) (sym ((==_iff (c ∷ token) gone).0 same))
                        ∙ found))
                  | inr fits ↦ fits
                ]))
      ] in
    elim (Option-cases (Map.get cache (c ∷ token))) [
      | inl absent ↦ rw (node_of_bearer, absent) looked
      | inr (cached, there) ↦ elim (Bool-cases (ltb now_ms cached.expires_at)) [
        | inl alive ↦ rw (node_of_bearer, there, alive) h
        | inr dead ↦ rw (node_of_bearer, there, dead) looked
      ]
    ]
  where
    none-some : {row : NodeRow} → none ≡ some row → ⊥
    none-some h = absurd (ground (arith, h))

History-ExpiresBy :
    {t : ℕ} {cache : TokenCache} (gone : Text) → History t cache → ExpiresBy (t + 60000) gone cache
History-ExpiresBy gone started = tt
History-ExpiresBy gone (requested {t} {cache} now_ms db token before l) =
    node_of_bearer-ExpiresBy (now_ms + 60000) now_ms db cache gone token (inr (omega arith)) (
      later-ExpiresBy (t + 60000) (now_ms + 60000) gone cache (omega (arith, l))
        (History-ExpiresBy gone before))

Since-ExpiresBy :
    {gone : Text} {rotated_ms : ℕ} {old : TokenCache} {t : ℕ} {cache : TokenCache}
    → ExpiresBy (rotated_ms + 60000) gone old
    → Since gone rotated_ms old t cache
    → ExpiresBy (rotated_ms + 60000) gone cache
Since-ExpiresBy h rotation = h
Since-ExpiresBy {gone} {rotated_ms} h
      (requested_since {t} {cache} now_ms db token before l absent) =
    node_of_bearer-ExpiresBy (rotated_ms + 60000) now_ms db cache gone token (inl absent)
      (Since-ExpiresBy h before)

get-ExpiresBy :
    (end : ℕ) (token : Text) (cache : TokenCache) (cached : CachedNode)
    → ExpiresBy end token cache
    → Map.get cache token ≡ some cached
    → cached.expires_at ≤ end
get-ExpiresBy end token cache cached h there =
    All-get (λ entry. (entry.0 == token) ≡ true → entry.1.expires_at ≤ end) cache token h there
      (==-refl token)

-- However many requests, of whatever tokens, an isolate has answered before and after a token
-- stopped naming a node, from 60 seconds after that moment on it refuses the token
-- and leaves its cache alone.
pub node_of_bearer-rotated :
    (rotated_ms t now_ms : ℕ) (old cache : TokenCache) (c : ℕ) (token : Text) (db : Database)
    → History rotated_ms old
    → Since (c ∷ token) rotated_ms old t cache
    → node_of_token db (c ∷ token) ≡ none
    → rotated_ms + 60000 ≤ now_ms
    → node_of_bearer now_ms db cache (c ∷ token) ≡ (refused 401 (codes "invalid node token"), cache)
unfolding node_of_bearer look_up
node_of_bearer-rotated rotated_ms t now_ms old cache c token db before after gone late =
    elim (Option-cases (Map.get cache (c ∷ token))) [
      | inl absent ↦ rw (node_of_bearer, absent, look_up, gone) refl
      | inr (cached, there) ↦
          let bound =
            get-ExpiresBy (rotated_ms + 60000) (c ∷ token) cache cached
              (Since-ExpiresBy (History-ExpiresBy (c ∷ token) before) after) there in
          let dead : ltb now_ms cached.expires_at ≡ false = ground (arith, bound, late) in
          rw (node_of_bearer, there, dead, look_up, gone) refl
    ]
