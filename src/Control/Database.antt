-- ===== src/Control/Database.antt =====
-- The tables of migrations/, as far as the services of crates/wsl-control read and write them, and
-- what a service does: it answers or fails, and what it wrote stays written when it fails later,
-- since no service opens a transaction. A statement fails only where a constraint of its table does.
pub mod Keeps
pub mod Leads
pub mod Found
use wslvpn.Base.{ℕ, Bool, true, false, Option, none, some, List, ◌∷◌, if◌then◌else◌}
use wslvpn.Base.Int.{ℤ}
use wslvpn.Base.Text.{Text}
use wslvpn.Base.Net.{Inet}
use wslvpn.Types.{SessionStatus}
use wslvpn.Policy.{AccessPolicyDocument, Reason}

pub record UserRow : Type 0 where
  pub id : ℕ
  pub email : Text
  pub active : Bool

pub record DeviceRow : Type 0 where
  pub id : ℕ
  pub user_id : ℕ
  pub wireguard_public_key : Text
  pub revoked : Bool

pub record NetworkRow : Type 0 where
  pub id : ℕ
  pub name : Text
  pub cidr : Inet
  pub dns_servers : List Text

pub record RouteRow : Type 0 where
  pub network_id : ℕ
  pub destination : Inet

pub record ServiceRow : Type 0 where
  pub network_id : ℕ
  pub name : Text
  pub destination : Inet
  pub protocol : Text
  pub ports : List ℤ

pub record GatewayRow : Type 0 where
  pub id : ℕ
  pub network_id : Option ℕ
  pub public_key : Text
  pub endpoint : Text
  pub config_version : ℕ
  pub last_heartbeat_at : Option ℤ

pub record SessionRow : Type 0 where
  pub id : ℕ
  pub user_id : ℕ
  pub device_id : ℕ
  pub gateway_id : ℕ
  pub network_id : ℕ
  pub policy_id : Option ℕ
  pub policy_version : Option ℤ
  pub assigned_ip : Inet
  pub status : SessionStatus
  pub created_at : ℤ
  pub expires_at : ℤ

pub record PeerRow : Type 0 where
  pub id : ℕ
  pub session_id : ℕ
  pub gateway_id : ℕ
  pub device_id : ℕ
  pub public_key : Text
  pub allowed_ips : List Inet
  pub expires_at : ℤ

pub record AllocationRow : Type 0 where
  pub network_id : ℕ
  pub address : Inet
  pub session_id : Option ℕ

-- The stored document; `none` is JSON that is no policy document.
pub record PolicyRow : Type 0 where
  pub id : ℕ
  pub name : Text
  pub current_version : ℤ
  pub git_commit : Option Text
  pub document : Option AccessPolicyDocument

-- A membership with the name of its group.
pub record MembershipRow : Type 0 where
  pub user_id : ℕ
  pub group_name : Text

pub data ActorType : Type 0 where
  user service gateway system : ActorType

pub data Details : Type 0 where
  no_details : Details
  denial : (reason : Reason) → Details
  session_opened : (session_id : ℕ) (assigned_ip : Text) (expires_at : ℤ) → Details

pub record AuditEntry : Type 0 where
  pub action : Text
  pub decision : Option Text
  pub actor_type : ActorType
  pub actor_id : Option Text
  pub user_id : Option ℕ
  pub device_id : Option ℕ
  pub resource : Option Text
  pub policy_id : Option ℕ
  pub policy_version : Option ℤ
  pub git_commit : Option Text
  pub details : Details

pub record Database : Type 0 where
  pub users : List UserRow
  pub devices : List DeviceRow
  pub memberships : List MembershipRow
  pub networks : List NetworkRow
  pub routes : List RouteRow
  pub services : List ServiceRow
  pub gateways : List GatewayRow
  pub policies : List PolicyRow
  pub sessions : List SessionRow
  pub wireguard_peers : List PeerRow
  pub ipam_allocations : List AllocationRow
  pub audit_events : List AuditEntry

pub data AppError : Type 0 where
  bad_request : Text → AppError
  unauthorized forbidden not_found : AppError
  conflict unavailable : Text → AppError
  internal db : AppError

pub data Result (A : Type 0) : Type 0 where
  ok : A → Result A
  err : AppError → Result A

abbrev pub Service : Type 0 → Type 0
Service A = Database → Result A × Database

module _ {A : Type 0} where
  unfoldable pub pure : A → Service A
  pure a tables = (ok a, tables)

  unfoldable pub fail : AppError → Service A
  fail e tables = (err e, tables)

  -- A query.
  unfoldable pub query : (Database → A) → Service A
  query f tables = (ok (f tables), tables)

  unfoldable pub or_fail : Option A → AppError → Service A
  unfolding pure fail
  or_fail none e = fail e
  or_fail (some a) e = pure a

-- A statement that changes rows.
unfoldable pub execute : (Database → Database) → Service (Unit {0})
execute f tables = (ok tt, f tables)

-- A row that a constraint of its table refuses is an error, and changes nothing.
unfoldable pub insert_unless : (Database → Bool) → (Database → Database) → Service (Unit {0})
unfolding fail execute
insert_unless clash f tables = if clash tables then fail db tables else execute f tables

unfoldable pub fail_if : Bool → AppError → Service (Unit {0})
unfolding pure fail
fail_if true e = fail e
fail_if false e = pure tt

module _ {A B : Type 0} where
  abbrev then_with : Result A → (A → Service B) → Service B
  then_with (ok a) f tables = f a tables
  then_with (err e) f tables = (err e, tables)

  infixl 5 ◌>>=◌ ◌>>◌
  -- To unfold it is to unfold the steps above.
  unfoldable pub ◌>>=◌ : Service A → (A → Service B) → Service B
  unfolding pure fail query or_fail execute insert_unless fail_if
  ◌>>=◌ m f tables = let (r, after) = m tables in then_with r f after

  abbrev pub ◌>>◌ : Service A → Service B → Service B
  m >> k = m >>= λ _. k

-- The first row that passes a test.
abbrev pub find {ℓ} : {A : Type ℓ} → (A → Bool) → List A → Option A
find p List.[] = none
find p (x ∷ xs) = if p x then some x else find p xs
