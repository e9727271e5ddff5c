-- ===== src/Tests/AgentRuns.antt =====
-- An agent polls after its node lost its links, and a token is rotated away.
use tyz.Prelude.{ℕ, ◌<◌, ◌≡◌, refl, some, none, [], ◌∷◌, arith, Text}
use tyz.Js.Map.{distinct}
use tyz.Js.Text.{codes}
use tyz.Js.Text.Decimal.{show}
use tyz.Entities.{RealmNodeConfig}
use tyz.Db.{Database, NodeConfigRow}
use tyz.Realm.Build.{build_realm_node_config}
use tyz.Realm.Snapshot.{recompute_node_config}
use tyz.Admin.{refused}
use tyz.Agent.{TokenCache, newer, get_config, node_of_bearer}
use tyz.Agent.Polls.{get_config-newer}
use tyz.Agent.Tokens.{started, requested, rotation, requested_since, node_of_bearer-rotated}
use tyz.Tests.TlsRuns.{issuer}
use tyz.Tests.RealmRuns.{by_code, summary}
use tyz.Tests.Fixtures.{time, db}

abbrev old_row : NodeConfigRow
old_row = record { node_id = 1; version = 7; config_json = codes "2"; updated_at = time }

abbrev unlinked : Database
unlinked = record db { chains = []; node_configs = old_row ∷ [] }

abbrev no_services : RealmNodeConfig
no_services = record { node_id = 1; node_name = codes "node"; services = []; tls_material = none }

abbrev saved : Database
saved = (recompute_node_config issuer by_code summary unlinked 1 1786854000 time).1

get_config-newer_example :
    (version : ℕ) × (7 < version)
    × (get_config issuer by_code summary 1786854000 time (some (show 7)) saved 1
        ≡ (newer version (summary no_services), saved))
unfolding build_realm_node_config recompute_node_config distinct show
get_config-newer_example =
    get_config-newer issuer by_code summary 1786854000 time unlinked 1 old_row no_services refl refl
      refl

-- The node's token is used once, rotated away, and used once more.
abbrev old_token : Text
old_token = codes "t"

abbrev cached : TokenCache
cached = (node_of_bearer 500 db [] old_token).1

abbrev retired : Database
retired = record db { relay_nodes = [] }

abbrev after : TokenCache
after = (node_of_bearer 700 retired cached old_token).1

node_of_bearer-rotated_example :
    node_of_bearer 60500 retired after old_token ≡ (refused 401 (codes "invalid node token"), after)
unfolding node_of_bearer
node_of_bearer-rotated_example =
    node_of_bearer-rotated 500 700 60500 cached after b't' [] retired
      (requested 500 db old_token started (omega arith))
      (requested_since 700 retired old_token rotation (omega arith) refl) refl (omega arith)
