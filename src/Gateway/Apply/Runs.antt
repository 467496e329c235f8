-- ===== src/Gateway/Apply/Runs.antt =====
-- One peer on an adopted interface, and the theorems on a round at it.
use wslvpn.Base.{
  ℕ, ◌/◌, ◌^◌, ◌-◌, ◌≡◌, refl, true, Option, none, some, [], ◌∷◌, ◌++◌, ◌==◌, arith, length,
}
use wslvpn.Base.Int.{ℤ, pos}
use wslvpn.Base.Text.{Text, codes}
use wslvpn.Types.{GatewayPeer, GatewayConfig}
use wslvpn.Gateway.Peers.{IpNetworks}
use wslvpn.Gateway.Apply.{
  WireGuardSection, validate, check_range, printed, Host, ok, check_peers, live_peers, round_plan,
  apply_config,
}
use wslvpn.Gateway.Apply.Issuing.{Issues}
use wslvpn.Gateway.Apply.Safety.{IsAllowed, apply_config-Issues}
use wslvpn.Gateway.Apply.Rounds.{IsKeyless, round_commands, apply_config-ok}
use wslvpn.Gateway.Apply.Progress.{apply_config-total}

-- A network is its prefix, below 8, and its address, below 256.
abbrev read_network : Text → Option (ℕ × ℕ)
read_network (prefix ∷ address ∷ []) = some (prefix, address)
read_network text = none

abbrev byte_networks : IpNetworks
byte_networks = record {
  Network = ℕ × ℕ;
  Address = ℕ;
  parse = read_network;
  to_string = λ net. net.0 ∷ net.1 ∷ [];
  is_v4 = λ net. true;
  prefix = λ net. net.0;
  network = λ net. net.1;
  contains = λ net address. net.1 / 2 ^ (8 - net.0) == address / 2 ^ (8 - net.0);
}

abbrev hub : WireGuardSection
hub = record {
  interface = codes "wg0";
  manage_interface = true;
  adopt_existing = true;
  state_dir = codes "/var/lib/wsl-gateway";
  public_key = some (codes "hub");
  managed_range = none;
}

abbrev session_peer : GatewayPeer
session_peer = record {
  peer_id = 1;
  public_key = codes "k";
  allowed_ips = (8 ∷ 18 ∷ []) ∷ [];
  session_id = 1;
  expires_at = pos 100;
}

abbrev sent : GatewayConfig
sent = record {
  version = 3;
  expires_at = pos 60;
  listen_port = 51_820;
  private_network_cidr = 4 ∷ 16 ∷ [];
  peers = session_peer ∷ [];
  routes = [];
  services = [];
}

abbrev quiet : Host
quiet = λ log command. printed []

abbrev at_ten : ℕ → ℤ
at_ten n = pos 10

hub_valid : validate byte_networks hub ≡ none
unfolding validate check_range
hub_valid = refl

sent_checked : check_peers at_ten 0 sent.peers ≡ none
unfolding check_peers
sent_checked = refl

apply_config-Issues_example :
    Issues
      (IsAllowed byte_networks at_ten hub sent none (live_peers quiet hub.interface []))
      []
      (apply_config byte_networks quiet at_ten hub sent none []).1
apply_config-Issues_example = apply_config-Issues byte_networks quiet at_ten hub sent none []

apply_config-total_example :
    (apply_config byte_networks quiet at_ten hub sent none []).0 ≡ ok (length sent.peers)
apply_config-total_example =
    apply_config-total byte_networks quiet hub sent none (λ log command. ([], refl)) at_ten []
      (omega arith) sent_checked (λ managed adopted. refl)

hub_round : (apply_config byte_networks quiet at_ten hub sent none []).0 ≡ ok 1
hub_round =
    apply_config-total byte_networks quiet hub sent none (λ log command. ([], refl)) at_ten []
      (omega arith) sent_checked (λ managed adopted. refl)

apply_config-ok_example :
    (1 ≡ length sent.peers)
    × ((apply_config byte_networks quiet at_ten hub sent none []).1
        ≡ []
          ++ round_commands byte_networks hub sent none
              (round_plan byte_networks quiet hub sent []))
    × (hub.manage_interface ≡ true → IsKeyless hub none)
apply_config-ok_example = apply_config-ok byte_networks quiet hub sent none at_ten [] 1 hub_round
