-- ===== src/Entities.antt =====
-- packages/shared/src/entities.ts: the entities that the control plane and the agents share.
-- Numbers are natural; a number that may have a fraction (a billing rate, a byte rate) is given
-- in thousandths. Free JSON and rendered text are `Text`.
use tyz.Prelude.{ℕ, Bool, Option, List, Text}

-- `in` is no name here, so the three kinds are called as the comments call them.
pub data ChainType : Type 0 where
  in_link chain_link out_link : ChainType

pub data Transport : Type 0 where
  raw ws tls grpc wss mtls mwss : Transport

pub data RelayRuleStatus : Type 0 where
  created paused running error : RelayRuleStatus

pub data UserStatus : Type 0 where
  active disabled : UserStatus

pub data ForwardMode : Type 0 where
  relay raw : ForwardMode

-- A number in thousandths.
abbrev pub Milli : Type 0
Milli = ℕ

pub record IpTrafficLimit : Type 0 where
  pub ip : Text
  pub in_rate : Milli
  pub out_rate : Milli

pub record TrafficLimiter : Type 0 where
  pub service_in : Option Milli
  pub service_out : Option Milli
  pub conn_in : Option Milli
  pub conn_out : Option Milli
  pub ips : Option (List IpTrafficLimit)

pub record IpConnectionLimit : Type 0 where
  pub ip : Text
  pub limit : Milli

pub record ConnectionLimiter : Type 0 where
  pub service_limit : Option Milli
  pub ips : Option (List IpConnectionLimit)

pub record LimiterConfig : Type 0 where
  pub traffic : Option TrafficLimiter
  pub connection : Option ConnectionLimiter

pub record RuleQuota : Type 0 where
  pub name : Text
  pub limit_bytes : ℕ
  pub starts_at : Text
  pub expires_at : Option Text

pub record Endpoint : Type 0 where
  pub id : ℕ
  pub name : Text
  pub host : Text
  pub port : ℕ
  pub note : Option Text
  pub created_at : Text
  pub updated_at : Text

pub record RelayNode : Type 0 where
  pub id : ℕ
  pub name : Text
  pub description : Option Text
  pub address : Text
  pub display_address : Option Text
  pub level : ℕ
  pub is_public : Bool
  pub version : Option Text
  pub egress_traffic : ℕ
  pub ingress_traffic : ℕ
  pub traffic_limit : ℕ
  pub rate : Milli
  pub ports : Text
  pub custom_cfg : Option Text
  pub created_at : Text
  pub updated_at : Text

pub record Chain : Type 0 where
  pub id : ℕ
  pub tunnel_id : ℕ
  pub node_id : ℕ
  pub chain_type : ChainType
  pub transport : Transport
  pub index : ℕ
  pub strategy : Text
  pub port : ℕ
  pub created_at : Text
  pub updated_at : Text

-- A stored rule has no `quota`; the control plane adds it when it renders a config.
pub record RelayRule : Type 0 where
  pub id : ℕ
  pub name : Text
  pub description : Option Text
  pub listen_port : ℕ
  pub tunnel_id : Option ℕ
  pub user_id : Option ℕ
  pub targets : Text
  pub endpoint_id : Option ℕ
  pub status : RelayRuleStatus
  pub exit_port : ℕ
  pub limit : Option LimiterConfig
  pub quota : Option RuleQuota
  pub upload_traffic : ℕ
  pub download_traffic : ℕ
  pub created_at : Text
  pub updated_at : Text

-- `traffic_bytes` 0 is unlimited, `max_rules` 0 too; absent ids grant access to all.
pub record Package : Type 0 where
  pub id : ℕ
  pub name : Text
  pub note : Option Text
  pub traffic_bytes : ℕ
  pub period_days : ℕ
  pub node_ids : Option (List ℕ)
  pub tunnel_ids : Option (List ℕ)
  pub max_rules : ℕ
  pub created_at : Text
  pub updated_at : Text

pub record User : Type 0 where
  pub id : ℕ
  pub name : Text
  pub note : Option Text
  pub status : UserStatus
  pub created_at : Text
  pub updated_at : Text

pub record UserSubscription : Type 0 where
  pub id : ℕ
  pub user_id : ℕ
  pub package_id : ℕ
  pub package_name : Text
  pub traffic_bytes : ℕ
  pub activated_at : Text
  pub expires_at : Option Text
  pub created_at : Text
  pub updated_at : Text

pub record TlsMaterial : Type 0 where
  pub sni : Text
  pub ca_cert : Text
  pub server_cert : Text
  pub server_key : Text
  pub client_cert : Text
  pub client_key : Text

pub record RealmTarget : Type 0 where
  pub host : Text
  pub port : ℕ

pub data Balance : Type 0 where
  roundrobin iphash : Balance

pub data TlsSide : Type 0 where
  listen connect : TlsSide

pub record RealmServiceLimit : Type 0 where
  pub service_in : Option ℕ
  pub service_out : Option ℕ
  pub conn_in : Option ℕ
  pub conn_out : Option ℕ
  pub max_conns : Option ℕ

pub record RealmService : Type 0 where
  pub name : Text
  pub listen_host : Text
  pub listen_port : ℕ
  pub target_host : Text
  pub target_port : ℕ
  pub extra_targets : Option (List RealmTarget)
  pub balance : Option Balance
  pub tls_side : Option TlsSide
  pub alpn : Option (List Text)
  pub connect_timeout_s : Option ℕ
  pub limit : Option RealmServiceLimit

pub record RealmNodeConfig : Type 0 where
  pub node_id : ℕ
  pub node_name : Text
  pub services : List RealmService
  pub tls_material : Option TlsMaterial
