-- ===== src/Gateway/Firewall.antt =====
-- crates/wsl-gateway/src/firewall.rs: the script for `nft`. A text is written from its end, each line in
-- front of what follows it.
pub mod Script
pub mod Ruleset
mod Runs
use wslvpn.Base.{
  ℕ, Bool, not, ◌&&◌, ◌||◌, Option, none, some, List, [], ◌∷◌, ◌++◌, map, ltb, leb, ◌==◌,
  if◌then◌else◌, take, is_empty, filter,
}
use wslvpn.Base.Text.{Text, codes}
use wslvpn.Base.Strings.Lines.{writeln, decimal}
use wslvpn.Types.{ServiceProtocol, tcp, udp, GatewayService}

pub protocol_text : ServiceProtocol → Text
protocol_text tcp = codes "tcp"
protocol_text udp = codes "udp"

-- `char::is_control`.
abbrev pub is_control : ℕ → Bool
is_control c = ltb c 32 || leb 127 c && leb c 159

abbrev pub comment_char : ℕ → ℕ
comment_char c = if c == b'"' || c == b'\\' then b'_' else c

pub escape_comment : Text → Text
escape_comment name = take 63 (map comment_char (filter (λ c. not (is_control c)) name))

abbrev pub join_ports : List Text → Text
join_ports [] = []
join_ports (port ∷ []) = port
join_ports (port ∷ (next ∷ ports)) = port ++ (codes ", " ++ join_ports (next ∷ ports))

pub port_expr : List Text → Text
port_expr [] = codes "{ " ++ (join_ports [] ++ codes " }")
port_expr (port ∷ []) = port
port_expr (port ∷ (next ∷ ports)) = codes "{ " ++ (join_ports (port ∷ next ∷ ports) ++ codes " }")

pub service_rule : GatewayService → Text
service_rule svc =
    codes "    ip daddr "
    ++ (svc.destination
        ++ (b' '
            ∷ (protocol_text svc.protocol
                ++ (codes " dport "
                    ++ (port_expr (map decimal svc.ports)
                        ++ (codes " accept comment \""
                            ++ (escape_comment svc.name ++ b'"' ∷ [])))))))

pub write_services : List GatewayService → Text → Text
write_services [] after = after
write_services (svc ∷ services) after =
    let rest = write_services services after in
    if is_empty svc.ports then rest else writeln (service_rule svc) rest

pub route_rule : Text → Text
route_rule route = codes "    ip daddr " ++ (route ++ codes " accept")

pub write_routes : List Text → Text → Text
write_routes [] after = after
write_routes (route ∷ routes) after = writeln (route_rule route) (write_routes routes after)

pub return_rule : Text → Text
return_rule range = codes "    ip saddr != " ++ (range ++ codes " return")

abbrev pub header_lines : List Text
header_lines =
    codes "add table inet wsl_gateway"
    ∷ codes "delete table inet wsl_gateway"
    ∷ codes "table inet wsl_gateway {"
    ∷ codes "  chain forward {"
    ∷ codes "    type filter hook forward priority filter + 10; policy accept;"
    ∷ []

abbrev pub established_rule : Text
established_rule = codes "    ct state established,related accept"

abbrev pub footer_lines : List Text
footer_lines = codes "    drop" ∷ codes "  }" ∷ codes "}" ∷ []

pub write_lines : List Text → Text → Text
write_lines [] after = after
write_lines (line ∷ rest) after = writeln line (write_lines rest after)

unfoldable pub render : List GatewayService → List Text → Option Text → Option Text
render services routes none = none
render services routes (some range) = some (
    write_lines header_lines (
      writeln (return_rule range) (
        writeln established_rule
          (write_services services (write_routes routes (write_lines footer_lines []))))))
