-- ===== src/Db.antt =====
-- apps/server/src/db/schema.ts: the D1 database as a record of tables, each a list of rows in the
-- order in which the statements return them, and the statements that the services share.
pub mod Statements
pub mod Counting
pub mod Finding
pub mod Ordering
use tyz.Prelude.{ℕ, Bool, Option, List, Text}
use tyz.Entities.{
  Endpoint, RelayNode, Chain, RelayRule, Package, User, UserSubscription, ForwardMode,
}
use tyz.Samples.{GostStatsSample}

pub record NodeRow : Type 0 where
  pub entity : RelayNode
  pub open entity use *
  pub token : Text
  pub token_hint : Text
  pub tls_config : Option Text

pub record TunnelRow : Type 0 where
  pub id : ℕ
  pub name : Text
  pub description : Option Text
  pub ingress_display_address : Option Text
  pub forward_mode : ForwardMode
  pub tls_enabled : Bool
  pub relay_auth_user : Text
  pub relay_auth_pass : Text
  pub created_at : Text
  pub updated_at : Text

pub record NodeConfigRow : Type 0 where
  pub node_id : ℕ
  pub version : ℕ
  pub config_json : Text
  pub updated_at : Text

pub record GostStatsRow : Type 0 where
  pub node_id : ℕ
  pub service : Text
  pub stats : GostStatsSample
  pub reported_at : Text

pub record HealthRow : Type 0 where
  pub node_id : ℕ
  pub service : Text
  pub state : Text
  pub error : Option Text
  pub reported_at : Text

pub data Role : Type 0 where
  admin user : Role

pub record UserRow : Type 0 where
  pub entity : User
  pub open entity use *
  pub role : Role
  pub password_hash : Option Text

pub record CounterRow : Type 0 where
  pub node_id : ℕ
  pub service : Text
  pub upload : ℕ
  pub download : ℕ
  pub updated_at : Text

pub record HourlyRow : Type 0 where
  pub rule_id : ℕ
  pub user_id : ℕ
  pub node_id : ℕ
  pub hour_ts : Text
  pub real_upload : ℕ
  pub real_download : ℕ
  pub billed_upload : ℕ
  pub billed_download : ℕ

pub record MetricsRow : Type 0 where
  pub node_id : ℕ
  pub service : Text
  pub hour_ts : Text
  pub samples : ℕ
  pub conn_sum : ℕ
  pub conn_max : ℕ

pub record SettingRow : Type 0 where
  pub key : Text
  pub value : Text
  pub updated_at : Text

pub data MaterialKind : Type 0 where
  ca server client : MaterialKind

pub record MaterialRow : Type 0 where
  pub kind : MaterialKind
  pub cert_pem : Text
  pub key_pem : Text
  pub not_after : Text
  pub updated_at : Text

-- The rows stand in the order of their ids, which nothing else reads.
pub record AuditRow : Type 0 where
  pub ts : Text
  pub actor : Text
  pub action : Text
  pub target_type : Text
  pub target_id : Text
  pub detail : Text

pub record Database : Type 0 where
  pub relay_nodes : List NodeRow
  pub tunnels : List TunnelRow
  pub chains : List Chain
  pub endpoints : List Endpoint
  pub relay_rules : List RelayRule
  pub node_configs : List NodeConfigRow
  pub gost_stats : List GostStatsRow
  pub service_health : List HealthRow
  pub users : List UserRow
  pub packages : List Package
  pub user_packages : List UserSubscription
  pub traffic_counters : List CounterRow
  pub traffic_hourly : List HourlyRow
  pub service_metrics_hourly : List MetricsRow
  pub audit_log : List AuditRow
  pub app_settings : List SettingRow
  pub tls_material : List MaterialRow
