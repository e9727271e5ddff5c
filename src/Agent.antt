-- ===== src/Agent.antt =====
-- apps/server/src/routes/agent.ts and middleware/nodeAuth.ts: what a node's agent asks of the control
-- plane: who it is, its config, and where it reports its traffic and its health.
pub mod Polls
pub mod Tokens
use tyz.Prelude.{
  ℕ, ◌+◌, Bool, true, false, Option, none, some, List, [], ◌∷◌, ◌++◌, Text, map, find?, length, leb,
  ltb, if◌then◌else◌, ◌==◌, nat_eq, text_eq, filter,
}
use tyz.Js.Map
use tyz.Js.Map.{JsMap}
use tyz.Js.Text.{codes, strip_prefix}
use tyz.Js.Number.{trim_start, trim_end}
use tyz.Js.Number.ParseInt.{parse_int}
use tyz.Samples.{GostStatsSample, ServiceHealthSample}
use tyz.Entities.{RealmNodeConfig}
use tyz.Db.{Database, NodeRow, NodeConfigRow, GostStatsRow}
use tyz.Tls.{Issuer}
use tyz.Traffic.{node_rule_tunnels}
use tyz.Traffic.Ingest.{ingest_traffic}
use tyz.Quota.{quota_sweep_stopped_users}
use tyz.Health.{ingest_health_snapshot}
use tyz.Realm.Build.{Comparison}
use tyz.Realm.Snapshot.{get_node_config_snapshot, recompute_node_config}
use tyz.Admin.{Answer, refused, answered, Response, Work, recompute_user, refuse, respond}

pub record CachedNode : Type 0 where
  pub id : ℕ
  pub name : Text
  pub expires_at : ℕ

abbrev pub cache_ttl_ms : ℕ
cache_ttl_ms = 60000

abbrev pub TokenCache : Type 0
TokenCache = JsMap Text CachedNode

abbrev pub node_of_token : Database → Text → Option NodeRow
node_of_token db token = find? (λ (row : NodeRow). row.token == token) db.relay_nodes

-- The node that a token names, and the cache after the request.
unfoldable pub look_up : ℕ → Database → TokenCache → Text → Answer (ℕ × Text) × TokenCache
look_up now_ms db cache token = elim (node_of_token db token) [
  | none ↦ (refused 401 (codes "invalid node token"), cache)
  | some row ↦ (
    answered (row.id, row.name),
    Map.set cache token
        (record { id = row.id; name = row.name; expires_at = now_ms + cache_ttl_ms }),
  )
]

unfoldable pub node_of_bearer : ℕ → Database → TokenCache → Text → Answer (ℕ × Text) × TokenCache
unfolding look_up
node_of_bearer now_ms db cache [] = (refused 401 (codes "empty bearer token"), cache)
node_of_bearer now_ms db cache (c ∷ token) = elim (Map.get cache (c ∷ token)) [
  | none ↦ look_up now_ms db cache (c ∷ token)
  | some cached ↦
      if ltb now_ms cached.expires_at
      then (answered (cached.id, cached.name), cache)
      else look_up now_ms db cache (c ∷ token)
]

unfoldable pub node_auth : ℕ → Database → TokenCache → Option Text → Answer (ℕ × Text) × TokenCache
unfolding node_of_bearer trim_start trim_end
node_auth now_ms db cache none = (refused 401 (codes "missing bearer token"), cache)
node_auth now_ms db cache (some header) = elim (strip_prefix (codes "Bearer ") header) [
  | none ↦ (refused 401 (codes "missing bearer token"), cache)
  | some rest ↦ node_of_bearer now_ms db cache (trim_end (trim_start rest))
]

pub data Poll : Type 0 where
  bad_version unknown_node not_modified : Poll
  newer : ℕ → Text → Poll

abbrev pub compare_version : Option NodeConfigRow → ℕ → Poll
compare_version none current = unknown_node
compare_version (some snapshot) current =
    if leb snapshot.version current
    then not_modified
    else newer snapshot.version snapshot.config_json

-- The version that the query names; `none` where it is no number or negative.
abbrev pub queried_version : Option Text → Option ℕ
queried_version none = some 0
queried_version (some raw) = elim (parse_int raw) [
  | none ↦ none
  | some (true, n) ↦ none
  | some (false, n) ↦ some n
]

-- The rows of `gost_stats` for a batch.
abbrev stats_row : ℕ → Text → GostStatsSample → GostStatsRow
stats_row node_id reported_at sample = record {
  node_id = node_id;
  service = sample.service;
  stats = sample;
  reported_at = reported_at;
}

-- The answer is the number of samples; the users that the sweep stops are recomputed after it.
unfoldable pub post_stats :
    ℕ → Option (List GostStatsSample) → Text → Text → Text → Database → Response ℕ
unfolding ingest_traffic quota_sweep_stopped_users node_rule_tunnels
post_stats node_id none reported_at rollup_now now db =
    refuse 400 (codes "invalid stats payload") db
post_stats node_id (some samples) reported_at rollup_now now db =
    let stored : Database = record db {
      gost_stats = db.gost_stats ++ map (stats_row node_id reported_at) samples;
    } in
    let ingested =
      ingest_traffic stored node_id samples (some (node_rule_tunnels db node_id)) rollup_now now in
    respond (length samples) ingested.0 (elim ingested.1 [
      | [] ↦ []
      | id ∷ ids ↦ map recompute_user (quota_sweep_stopped_users ingested.0 (id ∷ ids) now)
    ])

unfoldable pub post_heartbeat :
    ℕ → Option (List ServiceHealthSample) → Text → Database → Response (Unit {0})
unfolding ingest_health_snapshot
post_heartbeat node_id none reported_at db = refuse 400 (codes "invalid heartbeat payload") db
post_heartbeat node_id (some health) reported_at db =
    respond tt (ingest_health_snapshot db node_id health reported_at) []

module _ (issuer : Issuer) (locale_compare : Text → Text → Comparison)
    (stringify : RealmNodeConfig → Text) (epoch : ℕ) (now : Text) where
  -- A node without a snapshot gets one on demand.
  unfoldable pub ensure_snapshot : Database → ℕ → Option NodeConfigRow × Database
  unfolding get_node_config_snapshot recompute_node_config
  ensure_snapshot db node_id = elim (get_node_config_snapshot db node_id) [
    | some snapshot ↦ (some snapshot, db)
    | none ↦
        let r = recompute_node_config issuer locale_compare stringify db node_id epoch now in
        (get_node_config_snapshot r.1 node_id, r.1)
  ]

  unfoldable pub get_config : Option Text → Database → ℕ → Poll × Database
  unfolding ensure_snapshot parse_int
  get_config raw_version db node_id = elim (queried_version raw_version) [
    | none ↦ (bad_version, db)
    | some current ↦ let r = ensure_snapshot db node_id in (compare_version r.0 current, r.1)
  ]
