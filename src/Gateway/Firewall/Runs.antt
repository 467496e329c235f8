-- ===== src/Gateway/Firewall/Runs.antt =====
-- A service with a name that tries to end its comment, and the theorem on the script at it.
use wslvpn.Base.{◌≡◌, refl, some, List, [], ◌∷◌, ◌++◌, arith}
use wslvpn.Base.Text.{Text, codes}
use wslvpn.Base.Strings.{lines}
use wslvpn.Types.{tcp, GatewayService}
use wslvpn.Gateway.Firewall.{escape_comment, render}
use wslvpn.Gateway.Firewall.Ruleset.{Rules, lines-render}

abbrev hostile : GatewayService
hostile = record {
  name = b'"' ∷ 10 ∷ b'x' ∷ [];
  destination = codes "10.0.0.5/32";
  protocol = tcp;
  ports = 80 ∷ 443 ∷ [];
}

escaped : escape_comment hostile.name ≡ codes "_x"
unfolding escape_comment
escaped = refl

lines-render_example :
    (script : Text) × (rules : List Text) × (render
        (hostile ∷ [])
        (codes "10.1.0.0/16" ∷ [])
        (some (codes "10.8.1.0/24"))
      ≡ some script)
    × Rules (hostile ∷ []) rules
    × (lines script
        ≡ codes "add table inet wsl_gateway"
          ∷ codes "delete table inet wsl_gateway"
          ∷ codes "table inet wsl_gateway {"
          ∷ codes "  chain forward {"
          ∷ codes "    type filter hook forward priority filter + 10; policy accept;"
          ∷ codes "    ip saddr != 10.8.1.0/24 return"
          ∷ codes "    ct state established,related accept"
          ∷ (rules
              ++ (codes "    ip daddr 10.1.0.0/16 accept"
                  ∷ codes "    drop"
                  ∷ codes "  }"
                  ∷ codes "}"
                  ∷ [])))
lines-render_example =
    lines-render (hostile ∷ []) (codes "10.1.0.0/16" ∷ []) (codes "10.8.1.0/24") (omega arith)
      (omega arith) (omega arith)
