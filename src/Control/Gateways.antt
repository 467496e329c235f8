-- ===== src/Control/Gateways.antt =====
-- `GatewayService` of crates/wsl-control/src/services/gateways.rs: the heartbeat, which answers with
-- the configuration that the gateway has to put on the wire.
pub mod Serving
pub mod Withdrawn
pub mod History
use wslvpn.Base.{
  ℕ, ◌*◌, ◌^◌, Bool, true, false, not, ◌&&◌, Option, none, some, List, [], ◌∷◌, map, ◌==◌, ltb,
  if◌then◌else◌, any, filter, is_empty,
}
use wslvpn.Base.Int.{ℤ, pos, negsuc, ◌+ℤ◌, earlier}
use wslvpn.Base.Text.{Text, codes, text_eq}
use wslvpn.Base.Strings.{to_ascii_lowercase}
use wslvpn.Base.Net.{Networks}
use wslvpn.Types.{GatewayPeer, ServiceProtocol, tcp, udp, GatewayService, GatewayConfig, expired}
use wslvpn.Control.Database.{
  ServiceRow, GatewayRow, SessionRow, PeerRow, Database, bad_request, not_found, db, Service, pure,
  ◌>>=◌, ◌>>◌, query, execute, or_fail, find,
}
use wslvpn.Control.Ipam.{find_network}
use wslvpn.Control.Sessions.{is_active, routes_for}

pub parse_protocol : Text → Option ServiceProtocol
parse_protocol s =
    let lowered = to_ascii_lowercase s in
    if text_eq lowered (codes "tcp")
    then some tcp
    else if text_eq lowered (codes "udp")
    then some udp
    else none

-- `u16::try_from`, over a list; what does not fit is dropped.
pub to_ports : List ℤ → List ℕ
to_ports [] = []
to_ports (pos n ∷ ports) = if ltb n (2 ^ 16) then n ∷ to_ports ports else to_ports ports
to_ports (negsuc n ∷ ports) = to_ports ports

-- `ORDER BY name` on the rows of a network.
abbrev pub name_leb : Text → Text → Bool
name_leb [] t = true
name_leb (a ∷ s) [] = false
name_leb (a ∷ s) (b ∷ t) = if ltb a b then true else a == b && name_leb s t

pub insert_service : ServiceRow → List ServiceRow → List ServiceRow
insert_service row [] = row ∷ []
insert_service row (r ∷ rows) =
    let rest = insert_service row rows in
    if name_leb row.name r.name then row ∷ (r ∷ rows) else r ∷ rest

pub by_name : List ServiceRow → List ServiceRow
by_name [] = []
by_name (row ∷ rows) = insert_service row (by_name rows)

pub to_services : Networks → List ServiceRow → List GatewayService
to_services nets [] = []
to_services nets (row ∷ rows) =
    let rest = to_services nets rows in
    elim (parse_protocol row.protocol) [
      | none ↦ rest
      | some protocol ↦
          if is_empty (to_ports row.ports)
          then rest
          else record {
            name = row.name;
            destination = nets.to_string row.destination;
            protocol = protocol;
            ports = to_ports row.ports;
          }
            ∷ rest
    ]

abbrev pub is_stale : ℤ → ℕ → SessionRow → Bool
is_stale now id s = s.gateway_id == id && is_active s.status && earlier s.expires_at now

abbrev pub expired_row : ℤ → ℕ → SessionRow → SessionRow
expired_row now id s = if is_stale now id s then record s { status = expired } else s

-- `UPDATE sessions SET status = 'expired' …` and `DELETE FROM wireguard_peers …`.
pub expire_sessions : ℤ → ℕ → Service (Unit {0})
expire_sessions now id = execute λ t. record t { sessions = map (expired_row now id) t.sessions }

pub delete_expired_peers : ℤ → ℕ → Service (Unit {0})
delete_expired_peers now id = execute λ t. record t {
  wireguard_peers =
      filter (λ p. not (p.gateway_id == id && earlier p.expires_at now)) t.wireguard_peers;
}

-- The rows of the query that joins the peers with their sessions.
abbrev pub is_served : ℤ → ℕ → Database → PeerRow → Bool
is_served now id tables p =
    p.gateway_id == id
    && any (λ s. s.id == p.session_id && is_active s.status) tables.sessions
    && earlier now p.expires_at

abbrev pub to_peer : Networks → PeerRow → GatewayPeer
to_peer nets row = record {
  peer_id = row.id;
  public_key = row.public_key;
  allowed_ips = map nets.to_string row.allowed_ips;
  session_id = row.session_id;
  expires_at = row.expires_at;
}

pub served_peers : Networks → ℤ → ℕ → Database → List GatewayPeer
served_peers nets now id tables =
    map (to_peer nets) (filter (is_served now id tables) tables.wireguard_peers)

pub find_gateway_row : ℕ → Database → Option GatewayRow
find_gateway_row id tables = find (λ g. g.id == id) tables.gateways

-- `config`. `cidr::text` of a row is its `to_string`; `default_port` is of the configuration.
pub config : Networks → ℕ → ℤ → ℕ → Service GatewayConfig
config nets default_port now id = do
  known ← query (find_gateway_row id)
  gateway ← or_fail known not_found
  network_id ←
      or_fail gateway.network_id (bad_request (codes "gateway has no network_id; assign a network"))
  found ← query (find_network network_id)
  network ← or_fail found db
  expire_sessions now id
  delete_expired_peers now id
  peers ← query (served_peers nets now id)
  routes ← query (routes_for nets network_id)
  rows ← query (λ t. by_name (filter (λ r. r.network_id == network_id) t.services))
  pure (record {
    version = gateway.config_version;
    expires_at = now +ℤ pos (5 * 60);
    listen_port = default_port;
    private_network_cidr = nets.to_string network.cidr;
    peers = peers;
    routes = routes;
    services = to_services nets rows;
  })

abbrev pub seen_row : ℤ → ℕ → GatewayRow → GatewayRow
seen_row now id g = if g.id == id then record g { last_heartbeat_at = some now } else g

pub heartbeat : Networks → ℕ → ℤ → ℕ → Service GatewayConfig
heartbeat nets default_port now id = do
  execute (λ t. record t { gateways = map (seen_row now id) t.gateways })
  config nets default_port now id
