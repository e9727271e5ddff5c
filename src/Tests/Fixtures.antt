-- ===== src/Tests/Fixtures.antt =====
-- A deployment: node 1 enters tunnel 10 and node 2 leaves it; rule 100 of user 9 stands on it, and
-- rule 7 on tunnel 11, which node 1 does not serve.
use tyz.Prelude.{ℕ, Bool, false, Option, none, some, List, [], ◌∷◌, Text}
use tyz.Js.Text.{codes}
use tyz.Entities.{
  Chain, ChainType, in_link, out_link, Transport, RelayRule, created, Package, active,
  UserSubscription, ForwardMode,
}
use tyz.Samples.{GostStatsSample}
use tyz.Db.{Database, NodeRow, TunnelRow, UserRow, user}

abbrev pub time : Text
time = codes "2026-08-16T04:38:23.486Z"

abbrev pub node : ℕ → Text → NodeRow
node id ports = record {
  entity = record {
    id = id;
    name = codes "node";
    description = none;
    address = codes "10.0.0.2";
    display_address = none;
    level = 0;
    is_public = false;
    version = none;
    egress_traffic = 0;
    ingress_traffic = 0;
    traffic_limit = 0;
    rate = 1500;
    ports = ports;
    custom_cfg = none;
    created_at = time;
    updated_at = time;
  };
  token = codes "t";
  token_hint = codes "t";
  tls_config = none;
}

abbrev pub tunnel : ℕ → Bool → TunnelRow
tunnel id tls_enabled = record {
  id = id;
  name = codes "tunnel";
  description = none;
  ingress_display_address = none;
  forward_mode = ForwardMode.raw;
  tls_enabled = tls_enabled;
  relay_auth_user = [];
  relay_auth_pass = [];
  created_at = time;
  updated_at = time;
}

abbrev pub link : ℕ → ℕ → ℕ → ChainType → Chain
link id tunnel_id node_id chain_type = record {
  id = id;
  tunnel_id = tunnel_id;
  node_id = node_id;
  chain_type = chain_type;
  transport = Transport.tls;
  index = 0;
  strategy = codes "round";
  port = 0;
  created_at = time;
  updated_at = time;
}

abbrev pub rule : ℕ → ℕ → Option ℕ → RelayRule
rule id tunnel_id user_id = record {
  id = id;
  name = codes "rule";
  description = none;
  listen_port = 16500;
  tunnel_id = some tunnel_id;
  user_id = user_id;
  targets = codes "web.example.org:443";
  endpoint_id = none;
  status = created;
  exit_port = 0;
  limit = none;
  quota = none;
  upload_traffic = 0;
  download_traffic = 0;
  created_at = time;
  updated_at = time;
}

abbrev pub owner : UserRow
owner = record {
  entity = record {
    id = 9;
    name = codes "u9";
    note = none;
    status = active;
    created_at = time;
    updated_at = time;
  };
  role = user;
  password_hash = none;
}

abbrev pub plan : Package
plan = record {
  id = 1;
  name = codes "plan";
  note = none;
  traffic_bytes = 1000;
  period_days = 0;
  node_ids = none;
  tunnel_ids = none;
  max_rules = 0;
  created_at = time;
  updated_at = time;
}

abbrev pub plan_of_owner : UserSubscription
plan_of_owner = record {
  id = 1;
  user_id = 9;
  package_id = 1;
  package_name = codes "plan";
  traffic_bytes = 1000;
  activated_at = codes "2026-08-16T04:10:00.000Z";
  expires_at = none;
  created_at = time;
  updated_at = time;
}

abbrev pub db : Database
db = record {
  relay_nodes = node 1 (codes "20000-20100") ∷ node 2 (codes "30000-30100") ∷ [];
  tunnels = tunnel 10 false ∷ tunnel 11 false ∷ [];
  chains = link 1 10 1 in_link ∷ link 2 10 2 out_link ∷ [];
  endpoints = [];
  relay_rules = rule 100 10 (some 9) ∷ rule 7 11 none ∷ [];
  node_configs = [];
  gost_stats = [];
  service_health = [];
  users = owner ∷ [];
  packages = plan ∷ [];
  user_packages = plan_of_owner ∷ [];
  traffic_counters =
      record {
        node_id = 1;
        service = codes "service-100";
        upload = 50;
        download = 80;
        updated_at = time;
      }
      ∷ [];
  traffic_hourly = [];
  service_metrics_hourly = [];
  audit_log = [];
  app_settings = [];
  tls_material = [];
}

-- Two reports of rule 100, a forged one of rule 7.
abbrev pub sample : Text → ℕ → ℕ → GostStatsSample
sample service input output = record {
  service = service;
  client = none;
  total_conns = 1;
  current_conns = 1;
  input_bytes = input;
  output_bytes = output;
  total_errs = 0;
}

abbrev pub batch : List GostStatsSample
batch =
    sample (codes "service-100") 60 90
    ∷ sample (codes "service-7") 500 500
    ∷ sample (codes "service-100") 100 100
    ∷ []
