-- ===== src/Agent/Profile/Runs.antt =====
-- A config of one peer under key tools that take every key, and the theorems on validation at it.
use wslvpn.Base.{ℕ, ◌≡◌, ◌≢◌, refl, none, some, List, [], ◌∷◌, ◌++◌, All}
use wslvpn.Base.Text.{Text, codes, text_eq}
use wslvpn.Base.Strings.{
  lines, split, trim, trim_start, trim_end, to_ascii_lowercase, split_once, strip_prefix, strip_cr,
  ended_lines,
}
use wslvpn.Agent.Profile.{
  KeyTools, DirectProfile, ok, panic, normalise, read_line, check_lines, check_line, finish,
  validate, start, close_peer, enter_section, apply_setting, setting_in, interface_setting,
  peer_setting, set_peer, with_peer, first_endpoint, is_key, split_list,
}
use wslvpn.Agent.Profile.Settings.{IsHarmless, validate-IsHarmless, validate-ne-panic}

abbrev zeros : List ℕ
zeros =
    0 ∷ 0 ∷ 0 ∷ 0 ∷ 0 ∷ 0 ∷ 0 ∷ 0 ∷ 0 ∷ 0 ∷ 0 ∷ 0 ∷ 0 ∷ 0 ∷ 0 ∷ 0 ∷ 0 ∷ 0 ∷ 0 ∷ 0 ∷ 0 ∷ 0 ∷ 0 ∷ 0
    ∷ 0 ∷ 0 ∷ 0 ∷ 0 ∷ 0 ∷ 0 ∷ 0 ∷ 0 ∷ []

abbrev any_key : KeyTools
any_key = record { decode = λ text. some zeros; public_key_from_private = λ text. none }

abbrev office : Text
office =
    codes "[Interface]"
    ++ 10 ∷ codes "PrivateKey=k"
    ++ 10 ∷ codes "Address = 10.8.0.2"
    ++ 10 ∷ codes "[peer]"
    ++ 10 ∷ codes "PublicKey=p # hub"
    ++ 10 ∷ codes "AllowedIPs=10.8.0.0/16, ::/0"
    ++ 10 ∷ codes "Endpoint=h:1"
    ++ []

abbrev office_profile : DirectProfile
office_profile = record {
  name = codes "o";
  endpoint = codes "h:1";
  address = codes "10.8.0.2" ∷ [];
  dns = [];
  allowed_ips = codes "10.8.0.0/16" ∷ codes "::/0" ∷ [];
  public_key = none;
  mtu = none;
  listen_port = none;
  peers =
      record {
        public_key = codes "p";
        endpoint = some (codes "h:1");
        allowed_ips = codes "10.8.0.0/16" ∷ codes "::/0" ∷ [];
        persistent_keepalive = none;
      }
      ∷ [];
}

office_accepted : validate any_key office (codes "o") ≡ ok office_profile
unfolding validate normalise lines start check_lines check_line read_line close_peer enter_section
    apply_setting setting_in interface_setting peer_setting set_peer with_peer first_endpoint is_key
    split_list finish split trim trim_start trim_end to_ascii_lowercase split_once strip_prefix
    strip_cr ended_lines text_eq
office_accepted = refl

validate-IsHarmless_example : All (λ raw. IsHarmless (read_line raw)) (lines (normalise office))
validate-IsHarmless_example =
    validate-IsHarmless any_key office (codes "o") {profile = office_profile} office_accepted

validate-ne-panic_example : validate any_key office (codes "o") ≢ panic
validate-ne-panic_example = validate-ne-panic any_key office (codes "o")
