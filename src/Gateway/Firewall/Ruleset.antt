-- ===== src/Gateway/Firewall/Ruleset.antt =====
-- The script that crates/wsl-gateway/src/firewall.rs is to write, spelled out, and that it writes it.
use wslvpn.Base.{
  ℕ, ◌≡◌, ◌≢◌, refl, ap, inl, inr, some, List, [], ◌∷◌, ◌++◌, map, arith, Bool-cases, is_empty, All,
}
use wslvpn.Base.Text.{Text, codes}
use wslvpn.Base.Strings.{lines}
use wslvpn.Base.Strings.Lines.{IsOneLine, decimal}
use wslvpn.Types.{ServiceProtocol, tcp, udp, GatewayService}
use wslvpn.Gateway.Firewall.{
  protocol_text, escape_comment, join_ports, port_expr, service_rule, route_rule, return_rule,
  render,
}
use wslvpn.Gateway.Firewall.Script.{
  IsComment, escape_comment-IsComment, service_rules, whole_script,
}

-- One port by itself, and several in braces.
abbrev pub listed : ℕ → List ℕ → Text
listed port [] = decimal port
listed port (next ∷ ports) = decimal port ++ (codes ", " ++ listed next ports)

abbrev pub ports_text : List ℕ → Text
ports_text [] = []
ports_text (port ∷ []) = decimal port
ports_text (port ∷ (next ∷ ports)) = codes "{ " ++ (listed port (next ∷ ports) ++ codes " }")

abbrev pub protocol_name : ServiceProtocol → Text
protocol_name tcp = codes "tcp"
protocol_name udp = codes "udp"

-- The accept for a service: its destination, its protocol and its ports, with a comment.
abbrev pub accept_service : GatewayService → Text → Text
accept_service svc comment =
    codes "    ip daddr "
    ++ (svc.destination
        ++ (codes " "
            ++ (protocol_name svc.protocol
                ++ (codes " dport "
                    ++ (ports_text svc.ports
                        ++ (codes " accept comment \"" ++ (comment ++ codes "\"")))))))

-- A rule for each service with ports, in order, and none for the others.
pub data Rules : List GatewayService → List Text → Type 0 where
  no_services : Rules [] []
  without_ports :
      {svc : GatewayService} {services : List GatewayService} {rules : List Text}
      → svc.ports ≡ []
      → Rules services rules
      → Rules (svc ∷ services) rules
  with_ports :
      {svc : GatewayService} {services : List GatewayService} {rules : List Text} (comment : Text)
      → svc.ports ≢ []
      → IsComment comment
      → Rules services rules
      → Rules (svc ∷ services) (accept_service svc comment ∷ rules)

join_ports-listed :
    (port : ℕ) (ports : List ℕ) → join_ports (map decimal (port ∷ ports)) ≡ listed port ports
join_ports-listed port [] = refl
join_ports-listed port (next ∷ ports) =
    ap (λ s. decimal port ++ (codes ", " ++ s)) (join_ports-listed next ports)

port_expr-ports_text :
    (ports : List ℕ) → ports ≢ [] → port_expr (map decimal ports) ≡ ports_text ports
unfolding port_expr
port_expr-ports_text [] h = absurd (h refl)
port_expr-ports_text (port ∷ []) h = refl
port_expr-ports_text (port ∷ (next ∷ ports)) h =
    ap (λ s. codes "{ " ++ (s ++ codes " }")) (join_ports-listed port (next ∷ ports))

protocol_text-protocol_name : (p : ServiceProtocol) → protocol_text p ≡ protocol_name p
unfolding protocol_text
protocol_text-protocol_name tcp = refl
protocol_text-protocol_name udp = refl

service_rule-accept_service :
    (svc : GatewayService)
    → svc.ports ≢ []
    → service_rule svc ≡ accept_service svc (escape_comment svc.name)
unfolding service_rule
service_rule-accept_service svc h =
    simp (port_expr-ports_text svc.ports h, protocol_text-protocol_name)

service_rules-Rules : (services : List GatewayService) → Rules services (service_rules services)
service_rules-Rules [] = no_services
service_rules-Rules (svc ∷ services) = elim (Bool-cases (is_empty svc.ports)) [
  | inl e ↦ rw e (without_ports (ground arith) (service_rules-Rules services))
  | inr e ↦
      let filled : svc.ports ≢ [] = λ h. cc (e, h) in
      rw (e, service_rule-accept_service svc filled)
        (with_ports (escape_comment svc.name) filled (escape_comment-IsComment svc.name)
          (service_rules-Rules services))
]

-- For a known range the script has exactly these lines, whatever the services are called: the table made
-- anew with one chain, which first returns what is not from the range and accepts established flows, then
-- accepts each service that has ports and each route, in order, and drops all the rest. The comment of
-- a rule has no quote, no backslash and no control character and at most 63 characters, so that no name
-- ends its comment or adds a line. The range, the destinations and the routes are taken to stay on one
-- line.
pub lines-render :
    (services : List GatewayService) (routes : List Text) (range : Text)
    → IsOneLine range
    → All (λ svc. IsOneLine svc.destination) services
    → All IsOneLine routes
    → (script : Text) × (rules : List Text) × (render services routes (some range) ≡ some script)
      × Rules services rules
      × (lines script
          ≡ codes "add table inet wsl_gateway"
            ∷ (codes "delete table inet wsl_gateway"
                ∷ (codes "table inet wsl_gateway {"
                    ∷ (codes "  chain forward {"
                        ∷ (codes "    type filter hook forward priority filter + 10; policy accept;"
                            ∷ ((codes "    ip saddr != " ++ (range ++ codes " return"))
                                ∷ (codes "    ct state established,related accept"
                                    ∷ (rules
                                        ++ (map
                                              (λ route.
                                                codes "    ip daddr " ++ (route ++ codes " accept"))
                                              routes
                                            ++ (codes "    drop"
                                                ∷ (codes "  }" ∷ (codes "}" ∷ []))))))))))))
unfolding render return_rule route_rule
lines-render services routes range r s t = (
  _,
  service_rules services,
  refl,
  service_rules-Rules services,
  whole_script services routes range r s t,
)
