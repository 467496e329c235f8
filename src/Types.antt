-- ===== src/Types.antt =====
-- crates/wsl-types: what the control plane, the gateways and the agents send one another. An id is a
-- number, an instant a whole number of seconds.
use wslvpn.Base.{ℕ, Option, List}
use wslvpn.Base.Int.{ℤ}
use wslvpn.Base.Text.{Text}

-- crates/wsl-types/src/gateway.rs and network.rs.
pub record GatewayPeer : Type 0 where
  pub peer_id : ℕ
  pub public_key : Text
  pub allowed_ips : List Text
  pub session_id : ℕ
  pub expires_at : ℤ

pub data ServiceProtocol : Type 0 where
  tcp udp : ServiceProtocol

pub record GatewayService : Type 0 where
  pub name : Text
  pub destination : Text
  pub protocol : ServiceProtocol
  pub ports : List ℕ

pub record GatewayConfig : Type 0 where
  pub version : ℕ
  pub expires_at : ℤ
  pub listen_port : ℕ
  pub private_network_cidr : Text
  pub peers : List GatewayPeer
  pub routes : List Text
  pub services : List GatewayService

-- crates/wsl-types/src/session.rs.
pub data SessionStatus : Type 0 where
  active expired revoked : SessionStatus

pub record Session : Type 0 where
  pub id : ℕ
  pub user_id : ℕ
  pub device_id : ℕ
  pub gateway_id : ℕ
  pub network_id : ℕ
  pub policy_id : Option ℕ
  pub policy_version : Option ℤ
  pub assigned_ip : Text
  pub status : SessionStatus
  pub created_at : ℤ
  pub expires_at : ℤ

pub record ClientWireGuardConfig : Type 0 where
  pub interface_address : Text
  pub dns : List Text
  pub peer_public_key : Text
  pub peer_endpoint : Text
  pub allowed_ips : List Text
  pub persistent_keepalive : ℕ

pub record SessionIdentity : Type 0 where
  pub session_id : ℕ
  pub user_id : ℕ
  pub email : Text
  pub device_id : ℕ
  pub groups : List Text
  pub assigned_ip : Text
  pub expires_at : ℤ
