-- ===== src/Gateway/Firewall/Script.antt =====
-- The script of crates/wsl-gateway/src/firewall.rs, line by line.
use wslvpn.Base.{
  ℕ, zero, suc, inl, inr, ◌≤◌, ◌≡◌, ◌≢◌, refl, ap, ◌∙◌, false, not, List, [], ◌∷◌, ◌++◌, map, arith,
  Bool-cases, length, take, is_empty, filter, All, All-mono, All-map, length-take,
}
use wslvpn.Base.Text.{Text, codes}
use wslvpn.Base.Strings.{lines}
use wslvpn.Base.Strings.Plain.{All-append}
use wslvpn.Base.Strings.Lines.{
  writeln, IsOneLine, lines-nil, lines-writeln, decimal, decimal-IsDigit,
}
use wslvpn.Types.{ServiceProtocol, tcp, udp, GatewayService}
use wslvpn.Gateway.Firewall.{
  protocol_text, is_control, comment_char, escape_comment, join_ports, port_expr, service_rule,
  write_services, route_rule, write_routes, return_rule, header_lines, established_rule,
  footer_lines, write_lines,
}

-- A character that may stand in a comment: it ends neither the comment nor the line.
abbrev pub IsCommentChar : ℕ → Type 0
IsCommentChar c = (c ≢ b'"') × (c ≢ b'\\') × (is_control c ≡ false)

abbrev pub IsComment : Text → Type 0
IsComment text = All IsCommentChar text × (length text ≤ 63)

abbrev pub service_rules : List GatewayService → List Text
service_rules services = map service_rule (filter (λ svc. not (is_empty svc.ports)) services)

abbrev pub script_lines : List GatewayService → List Text → Text → List Text
script_lines services routes range =
    header_lines
    ++ (return_rule range
        ∷ (established_rule ∷ (service_rules services ++ (map route_rule routes ++ footer_lines))))

All-take : {A : Type 0} (P : A → Type 0) (n : ℕ) (xs : List A) → All P xs → All P (take n xs)
All-take P zero xs h = tt
All-take P (suc n) [] h = tt
All-take P (suc n) (x ∷ xs) h = (h.0, All-take P n xs h.1)

kept_chars : (name : Text) → All (λ c. is_control c ≡ false) (filter (λ c. not (is_control c)) name)
kept_chars [] = tt
kept_chars (c ∷ name) = elim (Bool-cases (is_control c)) [
  | inl e ↦ rw e (kept_chars name)
  | inr e ↦ rw e (e, kept_chars name)
]

comment_char-IsCommentChar : (c : ℕ) → is_control c ≡ false → IsCommentChar (comment_char c)
comment_char-IsCommentChar c h = ground arith

pub escape_comment-IsComment : (name : Text) → IsComment (escape_comment name)
unfolding escape_comment
escape_comment-IsComment name = (
  All-take IsCommentChar 63 _ (
      All-map (λ c. is_control c ≡ false) IsCommentChar comment_char comment_char-IsCommentChar _
        (kept_chars name)),
  omega (arith, length-take {0} 63 (map comment_char (filter (λ c. not (is_control c)) name))),
)

IsOneLine-append : (s t : Text) → IsOneLine s → IsOneLine t → IsOneLine (s ++ t)
IsOneLine-append s t h k = All-append (λ c. (c ≢ 10) × (c ≢ 13)) s t h k

join_ports-IsOneLine : (ports : List Text) → All IsOneLine ports → IsOneLine (join_ports ports)
join_ports-IsOneLine [] h = tt
join_ports-IsOneLine (port ∷ []) h = h.0
join_ports-IsOneLine (port ∷ (next ∷ ports)) h =
    IsOneLine-append port _ h.0
      (IsOneLine-append (codes ", ") _ (omega arith) (join_ports-IsOneLine (next ∷ ports) h.1))

port_expr-IsOneLine : (ports : List Text) → All IsOneLine ports → IsOneLine (port_expr ports)
unfolding port_expr
port_expr-IsOneLine [] h = omega arith
port_expr-IsOneLine (port ∷ []) h = h.0
port_expr-IsOneLine (port ∷ (next ∷ ports)) h =
    IsOneLine-append (codes "{ ") _ (omega arith)
      (IsOneLine-append _ (codes " }") (join_ports-IsOneLine (port ∷ next ∷ ports) h) (omega arith))

decimal-IsOneLine : (n : ℕ) → IsOneLine (decimal n)
decimal-IsOneLine n = All-mono (λ c h. omega arith) (decimal n) (decimal-IsDigit n)

decimals : (ports : List ℕ) → All IsOneLine (map decimal ports)
decimals [] = tt
decimals (port ∷ ports) = (decimal-IsOneLine port, decimals ports)

protocol_text-IsOneLine : (p : ServiceProtocol) → IsOneLine (protocol_text p)
unfolding protocol_text
protocol_text-IsOneLine tcp = omega arith
protocol_text-IsOneLine udp = omega arith

-- Whatever the name of a service is, its rule stays on one line.
service_rule-IsOneLine :
    (svc : GatewayService) → IsOneLine svc.destination → IsOneLine (service_rule svc)
unfolding service_rule
service_rule-IsOneLine svc h =
    let comment = (escape_comment-IsComment svc.name).0 in
    IsOneLine-append (codes "    ip daddr ") _ (omega arith) (
      IsOneLine-append svc.destination _ h (
        omega arith,
        IsOneLine-append (protocol_text svc.protocol) _ (protocol_text-IsOneLine svc.protocol) (
            IsOneLine-append (codes " dport ") _ (omega arith) (
              IsOneLine-append (port_expr (map decimal svc.ports)) _
                (port_expr-IsOneLine _ (decimals svc.ports))
                (IsOneLine-append (codes " accept comment \"") _ (omega arith) (
                  IsOneLine-append (escape_comment svc.name) _
                    (All-mono (λ c k. ground (arith, k.2)) (escape_comment svc.name) comment)
                    (omega arith))))),
      ))

lines-write_lines :
    (written : List Text) (after : Text)
    → All IsOneLine written
    → lines (write_lines written after) ≡ written ++ lines after
unfolding write_lines
lines-write_lines [] after h = refl
lines-write_lines (line ∷ rest) after h =
    lines-writeln line (write_lines rest after) h.0
    ∙ ap (◌∷◌ line) (lines-write_lines rest after h.1)

lines-write_routes :
    (routes : List Text) (after : Text)
    → All IsOneLine routes
    → lines (write_routes routes after) ≡ map route_rule routes ++ lines after
unfolding write_routes route_rule
lines-write_routes [] after h = refl
lines-write_routes (route ∷ routes) after h =
    lines-writeln (route_rule route) (write_routes routes after) (
      IsOneLine-append (codes "    ip daddr ") _ (omega arith)
        (IsOneLine-append route (codes " accept") h.0 (omega arith)))
    ∙ ap (◌∷◌ (route_rule route)) (lines-write_routes routes after h.1)

lines-write_services :
    (services : List GatewayService) (after : Text)
    → All (λ svc. IsOneLine svc.destination) services
    → lines (write_services services after) ≡ service_rules services ++ lines after
unfolding write_services
lines-write_services [] after h = refl
lines-write_services (svc ∷ services) after h = elim (Bool-cases (is_empty svc.ports)) [
  | inl e ↦ rw e (lines-write_services services after h.1)
  | inr e ↦ rw e (
      lines-writeln (service_rule svc) (write_services services after)
        (service_rule-IsOneLine svc h.0)
      ∙ ap (◌∷◌ (service_rule svc)) (lines-write_services services after h.1))
]

return_rule-IsOneLine : (range : Text) → IsOneLine range → IsOneLine (return_rule range)
unfolding return_rule
return_rule-IsOneLine range r =
    IsOneLine-append (codes "    ip saddr != ") _ (omega arith)
      (IsOneLine-append range (codes " return") r (omega arith))

footer : lines (write_lines footer_lines []) ≡ footer_lines
footer = lines-write_lines footer_lines [] (omega arith) ∙ rw lines-nil refl

pub whole_script :
    (services : List GatewayService) (routes : List Text) (range : Text)
    → IsOneLine range
    → All (λ svc. IsOneLine svc.destination) services
    → All IsOneLine routes
    → lines (
        write_lines header_lines (
          writeln (return_rule range) (
            writeln established_rule
              (write_services services (write_routes routes (write_lines footer_lines []))))))
      ≡ script_lines services routes range
whole_script services routes range r s t =
    lines-write_lines header_lines _ (omega arith)
    ∙ ap (◌++◌ header_lines) (
        lines-writeln (return_rule range) _ (return_rule-IsOneLine range r)
        ∙ ap (◌∷◌ (return_rule range)) (
            lines-writeln established_rule _ (omega arith)
            ∙ ap (◌∷◌ established_rule) (
                lines-write_services services _ s
                ∙ ap (◌++◌ (service_rules services))
                    (lines-write_routes routes _ t ∙ ap (◌++◌ (map route_rule routes)) footer))))
