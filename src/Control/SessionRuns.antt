-- ===== src/Control/SessionRuns.antt =====
-- Tables with one user, device, network, gateway and policy, and the theorems on sessions at them.
use wslvpn.Base.{ℕ, List, ◌≡◌, refl, inl, true, false, none, some, [], ◌∷◌, arith, All, Any}
use wslvpn.Base.Int.{pos}
use wslvpn.Base.Text.{codes}
use wslvpn.Base.Net.{v4, Inet, Networks}
use wslvpn.Types.{active, GatewayConfig, Session}
use wslvpn.Policy.{AccessPolicyDocument, default_session, default_action}
use wslvpn.Control.Database.{DeviceRow, GatewayRow, SessionRow, PeerRow, Database, ok}
use wslvpn.Control.Database.Keeps.{Keeps}
use wslvpn.Control.Database.Leads.{Post}
use wslvpn.Control.Ipam.{allocate}
use wslvpn.Control.Ipam.Addresses.{KeepsAddress, NoSharedAddress, HandsOut, allocate-HandsOut}
use wslvpn.Control.Sessions.Listing.{IsSessionOf, list_for_user, list_for_user-IsOwn}
use wslvpn.Control.Sessions.{CreateSessionRequest, Admission, admit, create, revoke}
use wslvpn.Control.Sessions.Peers.{PeersBacked, create-PeersBacked}
use wslvpn.Control.Sessions.Entitlement.{IsEntitled}
use wslvpn.Control.Sessions.Granting.{Refused, admit-IsEntitled}
use wslvpn.Control.Sessions.Revoking.{IsOpen, IsWithdrawn, revoke-IsWithdrawn}
use wslvpn.Control.Gateways.{heartbeat}
use wslvpn.Control.Gateways.Serving.{AllOpen, Unserved, heartbeat-AllOpen}
use wslvpn.Control.Gateways.History.{Call, creating, beating, after_calls, revoke-after_calls}

-- The networks of one octet: a prefix of 32 is the only one, and there are two hosts.
abbrev two_hosts : Networks
two_hosts = record {
  hosts =
      λ net. v4 (10 ∷ 8 ∷ 1 ∷ 1 ∷ []) ∷ v4 (10 ∷ 8 ∷ 1 ∷ 2 ∷ []) ∷ v4 (10 ∷ 8 ∷ 1 ∷ 3 ∷ []) ∷ [];
  new = λ ip prefix. some (record { ip = ip; prefix = prefix });
  parse = λ text. some (record { ip = v4 text; prefix = 32 });
  to_string = λ net. 0 ∷ [];
  addr_text = λ ip. 0 ∷ [];
  error_text = [];
}

abbrev overlay : Inet
overlay = record { ip = v4 (10 ∷ 8 ∷ 1 ∷ 0 ∷ []); prefix = 24 }

abbrev laptop : DeviceRow
laptop = record { id = 2; user_id = 1; wireguard_public_key = 9 ∷ []; revoked = false }

abbrev hub : GatewayRow
hub = record {
  id = 4;
  network_id = some 3;
  public_key = 8 ∷ [];
  endpoint = 7 ∷ [];
  config_version = 1;
  last_heartbeat_at = none;
}

abbrev everyone : AccessPolicyDocument
everyone = record {
  api_version = codes "wsl.io/v1";
  kind = codes "AccessPolicy";
  metadata = record { name = codes "all" };
  spec = record {
    subjects = record { groups = []; users = codes "a" ∷ [] };
    resources = codes "*" ∷ [];
    device = record { managed = none; compliant = none; required_signals = [] };
    session = default_session;
    action = default_action;
  };
}

abbrev old_session : SessionRow
old_session = record {
  id = 5;
  user_id = 1;
  device_id = 2;
  gateway_id = 4;
  network_id = 3;
  policy_id = none;
  policy_version = none;
  assigned_ip = record { ip = v4 (10 ∷ 8 ∷ 1 ∷ 2 ∷ []); prefix = 32 };
  status = active;
  created_at = pos 0;
  expires_at = pos 900;
}

abbrev old_peer : PeerRow
old_peer = record {
  id = 6;
  session_id = 5;
  gateway_id = 4;
  device_id = 2;
  public_key = 9 ∷ [];
  allowed_ips = record { ip = v4 (10 ∷ 8 ∷ 1 ∷ 2 ∷ []); prefix = 32 } ∷ [];
  expires_at = pos 900;
}

abbrev tables : Database
tables = record {
  users = record { id = 1; email = codes "a"; active = true } ∷ [];
  devices = laptop ∷ [];
  memberships = [];
  networks = record { id = 3; name = codes "office"; cidr = overlay; dns_servers = [] } ∷ [];
  routes = [];
  services = [];
  gateways = hub ∷ [];
  policies =
      record {
        id = 10;
        name = codes "all";
        current_version = pos 1;
        git_commit = none;
        document = some everyone;
      }
      ∷ [];
  sessions = old_session ∷ [];
  wireguard_peers = old_peer ∷ [];
  ipam_allocations =
      record {
        network_id = 3;
        address = record { ip = v4 (10 ∷ 8 ∷ 1 ∷ 2 ∷ []); prefix = 32 };
        session_id = some 5;
      }
      ∷ [];
  audit_events = [];
}

abbrev request : CreateSessionRequest
request = record { network_id = 3; device_id = 2; posture = [] }

tables-PeersBacked : PeersBacked tables
tables-PeersBacked = (inl (refl, refl, refl, refl), tt)

two_hosts-KeepsAddress : KeepsAddress two_hosts
two_hosts-KeepsAddress ip prefix net e = ground arith

tables-NoSharedAddress : NoSharedAddress tables
tables-NoSharedAddress = (tt, tt)

allocate-HandsOut_example :
    Post
      (HandsOut two_hosts 3 20 tables)
      (λ after. after ≡ tables)
      (allocate two_hosts 3 20 tables).0
      (allocate two_hosts 3 20 tables).1
allocate-HandsOut_example =
    allocate-HandsOut two_hosts two_hosts-KeepsAddress 3 20 tables tables-NoSharedAddress

create-PeersBacked_example :
    Keeps PeersBacked (create two_hosts (pos 100) 20 21 1 (codes "a") request)
create-PeersBacked_example = create-PeersBacked two_hosts (pos 100) 20 21 1 (codes "a") request

admit-IsEntitled_example :
    Post
      (λ (admission : Admission) after.
        (after ≡ tables) × IsEntitled tables 1 (codes "a") request admission)
      (Refused tables)
      (admit 1 (codes "a") request tables).0
      (admit 1 (codes "a") request tables).1
admit-IsEntitled_example = admit-IsEntitled 1 (codes "a") request tables

revoke-IsWithdrawn_example :
    ((revoke 5 tables).0 ≡ ok true)
    × IsWithdrawn 5 (revoke 5 tables).1
    × (Any (IsOpen 5) tables.sessions
        → All (λ r. ¬ (r.session_id ≡ some 5)) (revoke 5 tables).1.ipam_allocations)
revoke-IsWithdrawn_example = revoke-IsWithdrawn 5 tables tables-PeersBacked

heartbeat-AllOpen_example :
    Post
      (λ answer after. PeersBacked after × AllOpen (pos 100) after answer)
      PeersBacked
      (heartbeat two_hosts 51820 (pos 100) 4 tables).0
      (heartbeat two_hosts 51820 (pos 100) 4 tables).1
heartbeat-AllOpen_example = heartbeat-AllOpen two_hosts 51820 (pos 100) 4 tables tables-PeersBacked

-- Opening a session again after the revocation, with the id of the revoked one and with another, and a
-- heartbeat between.
abbrev busy : List Call
busy =
    creating (pos 100) 5 21 1 (codes "a") request
    ∷ creating (pos 101) 20 21 1 (codes "a") request
    ∷ beating 51820 (pos 102) 4
    ∷ []

revoke-after_calls_example :
    Post {A = GatewayConfig}
      (λ answer after. Unserved 5 answer)
      (λ after. Unit)
      (heartbeat two_hosts 51820 (pos 110) 4 (after_calls two_hosts busy (revoke 5 tables).1)).0
      (heartbeat two_hosts 51820 (pos 110) 4 (after_calls two_hosts busy (revoke 5 tables).1)).1
revoke-after_calls_example =
    revoke-after_calls two_hosts 5 busy 51820 (pos 110) 4 tables tables-PeersBacked (inl refl)

list_for_user-IsOwn_example :
    (sessions : List Session) × (list_for_user two_hosts 1 tables ≡ (ok sessions, tables))
    × All (λ s. s.user_id ≡ 1) sessions
    × ((session_id : ℕ)
        → Any (IsSessionOf 1 session_id) (old_session ∷ [])
        → Any (λ s. s.id ≡ session_id) sessions)
list_for_user-IsOwn_example = list_for_user-IsOwn two_hosts 1 tables
