-- ===== src/Gateway/Peers/Runs.antt =====
-- Networks of one family, written as two numbers, and the theorems on the plan at two live peers.
use wslvpn.Base.{
  arith, ◌++◌, ℕ, ◌/◌, ◌^◌, ◌-◌, ◌≡◌, refl, ◌↔◌, true, Option, none, some, List, [], ◌∷◌, ◌==◌, Any,
}
use wslvpn.Base.Int.{pos}
use wslvpn.Base.Text.{Text, codes, text_eq}
use wslvpn.Gateway.Peers.Dump.{parse_wg_dump}
use wslvpn.Gateway.Peers.Dumped.{Printed, IsPrinted, dump_text, parse_wg_dump-dump_text}
use wslvpn.Gateway.Peers.{
  IpNetworks, GatewayPeer, LivePeer, ReconcilePlan, plan, plan_live, plan_desired, sort_live,
  sort_desired, is_managed, contains_network, has_key, live_by_key,
}
use wslvpn.Gateway.Peers.Removal.{Removable, plan_remove_iff}
use wslvpn.Gateway.Peers.Additions.{IsAbsent, plan_add_iff}

-- A network is its prefix, below 8, and its address, below 256.
abbrev read_network : Text → Option (ℕ × ℕ)
read_network (prefix ∷ address ∷ []) = some (prefix, address)
read_network text = none

abbrev small_networks : IpNetworks
small_networks = record {
  Network = ℕ × ℕ;
  Address = ℕ;
  parse = read_network;
  to_string = λ net. net.0 ∷ net.1 ∷ [];
  is_v4 = λ net. true;
  prefix = λ net. net.0;
  network = λ net. net.1;
  contains = λ net address. net.1 / 2 ^ (8 - net.0) == address / 2 ^ (8 - net.0);
}

abbrev left_over : LivePeer
left_over = record { public_key = 7 ∷ []; allowed_ips = (8 ∷ 17 ∷ []) ∷ [] }

abbrev outsider : LivePeer
outsider = record { public_key = 8 ∷ []; allowed_ips = (8 ∷ 40 ∷ []) ∷ [] }

abbrev wanted : GatewayPeer
wanted = record {
  peer_id = 1;
  public_key = 9 ∷ [];
  allowed_ips = (8 ∷ 18 ∷ []) ∷ [];
  session_id = 1;
  expires_at = pos 100;
}

abbrev on_the_wire : List LivePeer
on_the_wire = left_over ∷ outsider ∷ []

abbrev managed_range : Option (ℕ × ℕ)
managed_range = some (4, 16)

abbrev expected_plan : ReconcilePlan
expected_plan = record {
  add = wanted ∷ [];
  update = [];
  unchanged = [];
  remove = (7 ∷ []) ∷ [];
  foreign = (8 ∷ []) ∷ [];
}

the_plan : plan small_networks (wanted ∷ []) on_the_wire managed_range ≡ expected_plan
unfolding plan plan_live plan_desired sort_live sort_desired is_managed contains_network has_key
    live_by_key text_eq
the_plan = refl

plan_remove_iff_example :
    Any (λ k. k ≡ 7 ∷ []) (plan small_networks (wanted ∷ []) on_the_wire managed_range).remove
    ↔ Any (Removable small_networks (wanted ∷ []) managed_range (7 ∷ [])) on_the_wire
plan_remove_iff_example =
    plan_remove_iff small_networks (wanted ∷ []) on_the_wire managed_range (7 ∷ [])

plan_add_iff_example :
    Any (λ p. p ≡ wanted) (plan small_networks (wanted ∷ []) on_the_wire managed_range).add
    ↔ (Any (λ p. p ≡ wanted) (wanted ∷ []) × IsAbsent on_the_wire wanted)
plan_add_iff_example = plan_add_iff small_networks (wanted ∷ []) on_the_wire managed_range wanted

-- A peer with two addresses, as `wg` prints it, and one without any.
abbrev with_addresses : Printed
with_addresses = record {
  peer = record {
    public_key = codes "k";
    allowed_ips = codes "10.8.0.7/32" ∷ codes "10.8.1.5/32" ∷ [];
  };
  preshared = codes "(none)";
  endpoint = codes "192.0.2.1:51820";
  behind = codes "0" ++ 9 ∷ codes "0";
}

abbrev without_addresses : Printed
without_addresses = record {
  peer = record { public_key = codes "m"; allowed_ips = [] };
  preshared = codes "(none)";
  endpoint = codes "(none)";
  behind = codes "0";
}

with_addresses-IsPrinted : IsPrinted with_addresses
with_addresses-IsPrinted = record {
  has_key = λ h. cc;
  key = omega arith;
  shared = omega arith;
  reached = omega arith;
  addresses = ((λ h. cc, ground arith), ((λ h. cc, ground arith), tt));
  no_word_none = λ h. cc;
  rest = omega arith;
}

without_addresses-IsPrinted : IsPrinted without_addresses
without_addresses-IsPrinted = record {
  has_key = λ h. cc;
  key = omega arith;
  shared = omega arith;
  reached = omega arith;
  addresses = tt;
  no_word_none = λ h. cc;
  rest = omega arith;
}

parse_wg_dump-dump_text_example :
    parse_wg_dump (dump_text (codes "secret") (with_addresses ∷ without_addresses ∷ []))
    ≡ with_addresses.peer ∷ without_addresses.peer ∷ []
parse_wg_dump-dump_text_example =
    parse_wg_dump-dump_text (codes "secret") (with_addresses ∷ without_addresses ∷ []) (omega arith)
      (with_addresses-IsPrinted, (without_addresses-IsPrinted, tt))
