-- ===== src/Agent/Profile.antt =====
-- crates/wsl-agent/src/profile.rs: checking a wg-quick config before it is stored. Decoding base64 and
-- deriving a public key are parameters.
pub mod Settings
mod Runs
use wslvpn.Base.{
  ℕ, ◌+◌, Bool, true, false, not, ◌&&◌, Option, none, some, List, [], ◌∷◌, ◌++◌, ◌==◌,
  if◌then◌else◌, length, is_empty, filter, map,
}
use wslvpn.Base.Text.{Text, codes, text_eq, has_text}
use wslvpn.Base.Strings.{split, trim, lines, split_once, strip_prefix, to_ascii_lowercase}

pub record KeyTools : Type 0 where
  pub decode : Text → Option (List ℕ)
  pub public_key_from_private : Text → Option Text

pub record PeerSummary : Type 0 where
  pub public_key : Text
  pub endpoint : Option Text
  pub allowed_ips : List Text
  pub persistent_keepalive : Option Text

pub record DirectProfile : Type 0 where
  pub name : Text
  pub endpoint : Text
  pub address : List Text
  pub dns : List Text
  pub allowed_ips : List Text
  pub public_key : Option Text
  pub mtu : Option Text
  pub listen_port : Option Text
  pub peers : List PeerSummary

abbrev pub interface_keys : List Text
interface_keys =
    codes "privatekey"
    ∷ codes "address"
    ∷ codes "dns"
    ∷ codes "mtu"
    ∷ codes "listenport"
    ∷ codes "table"
    ∷ codes "fwmark"
    ∷ codes "saveconfig"
    ∷ []

abbrev pub peer_keys : List Text
peer_keys =
    codes "publickey"
    ∷ codes "presharedkey"
    ∷ codes "allowedips"
    ∷ codes "endpoint"
    ∷ codes "persistentkeepalive"
    ∷ []

abbrev pub hook_keys : List Text
hook_keys = codes "preup" ∷ codes "postup" ∷ codes "predown" ∷ codes "postdown" ∷ []

pub data Section : Type 0 where
  outside interface peer : Section

-- One constructor for each `bail!`, with the line and the text that its message names.
pub data ProfileError : Type 0 where
  no_public_key no_allowed_ips expected_pair bad_private_key bad_public_key bad_preshared_key :
      (line : ℕ) → ProfileError
  unknown_section hook outside_section not_interface not_peer :
      (line : ℕ) (key : Text) → ProfileError
  interface_count : ℕ → ProfileError
  no_peer no_private_key no_address no_endpoint : ProfileError

-- `panic` is the `expect` on an open peer, which never fails.
pub data Checked (A : Type 0) : Type 0 where
  ok : A → Checked A
  err : ProfileError → Checked A
  panic : Checked A

infixl 5 ◌>>=◌ ◌>>◌
abbrev pub ◌>>=◌ : {A B : Type 0} → Checked A → (A → Checked B) → Checked B
ok a >>= f = f a
err e >>= f = err e
panic >>= f = panic

abbrev pub ◌>>◌ : {B : Type 0} → Checked (Unit {0}) → Checked B → Checked B
m >> k = m >>= λ _. k

abbrev pub bail_if : Bool → ProfileError → Checked (Unit {0})
bail_if true e = err e
bail_if false e = ok tt

pub split_list : Text → List Text
split_list value = filter (λ v. not (is_empty v)) (map trim (split b',' value))

pub is_key : KeyTools → Text → Bool
is_key tools value = elim (tools.decode (trim value)) [
  | none ↦ false
  | some bytes ↦ length bytes == 32
]

abbrev join_lines : List Text → Text
join_lines [] = []
join_lines (line ∷ rest) = line ++ 10 ∷ join_lines rest

abbrev without_mark : Text → Text
without_mark text = elim (strip_prefix (0xfeff ∷ []) text) [ none ↦ text | some rest ↦ rest ]

-- Without a byte order mark, and every line ended by a line feed.
pub normalise : Text → Text
normalise text =
    let out = join_lines (lines (without_mark text)) in if is_empty out then 10 ∷ [] else out

-- What the loop of `validate` carries from line to line.
pub record Progress : Type 0 where
  pub section : Section
  pub interfaces : ℕ
  pub peers : ℕ
  pub private_key : Bool
  pub profile : DirectProfile
  pub peer_has_key : Bool
  pub peer_has_allowed : Bool

pub start : Text → Progress
start name = record {
  section = outside;
  interfaces = 0;
  peers = 0;
  private_key = false;
  profile = record {
    name = name;
    endpoint = [];
    address = [];
    dns = [];
    allowed_ips = [];
    public_key = none;
    mtu = none;
    listen_port = none;
    peers = [];
  };
  peer_has_key = true;
  peer_has_allowed = true;
}

abbrev is_peer : Section → Bool
is_peer peer = true
is_peer outside = false
is_peer interface = false

-- The peer that ends here has a key and addresses.
pub close_peer : ℕ → Progress → Checked (Unit {0})
close_peer line s =
    if is_peer s.section
    then (if not s.peer_has_key
        then err (no_public_key line)
        else if not s.peer_has_allowed
        then err (no_allowed_ips line)
        else ok tt)
    else ok tt

abbrev empty_peer : PeerSummary
empty_peer = record {
  public_key = [];
  endpoint = none;
  allowed_ips = [];
  persistent_keepalive = none;
}

pub enter_section : ℕ → Text → Progress → Checked Progress
enter_section line heading s =
    let lowered = to_ascii_lowercase heading in
    if text_eq lowered (codes "[interface]")
    then ok (record s { section = interface; interfaces = s.interfaces + 1 })
    else if text_eq lowered (codes "[peer]")
    then ok (record s {
      section = peer;
      peers = s.peers + 1;
      profile = record s.profile { peers = s.profile.peers ++ empty_peer ∷ [] };
      peer_has_key = false;
      peer_has_allowed = false;
    })
    else err (unknown_section line lowered)

pub interface_setting : KeyTools → ℕ → Text → Text → Progress → Checked Progress
interface_setting tools line key value s =
    let p = s.profile in
    if not (has_text key interface_keys)
    then err (not_interface line key)
    else if text_eq key (codes "privatekey")
    then (if not (is_key tools value)
        then err (bad_private_key line)
        else ok (record s {
          private_key = true;
          profile = record p { public_key = tools.public_key_from_private value };
        }))
    else if text_eq key (codes "address")
    then ok (record s { profile = record p { address = p.address ++ split_list value } })
    else if text_eq key (codes "dns")
    then ok (record s { profile = record p { dns = p.dns ++ split_list value } })
    else if text_eq key (codes "mtu")
    then ok (record s { profile = record p { mtu = some value } })
    else if text_eq key (codes "listenport")
    then ok (record s { profile = record p { listen_port = some value } })
    else ok s

-- `last_mut`.
abbrev pub update_last : (PeerSummary → PeerSummary) → List PeerSummary → Option (List PeerSummary)
update_last f [] = none
update_last f (p ∷ []) = some (f p ∷ [])
update_last f (p ∷ (q ∷ ps)) = elim (update_last f (q ∷ ps)) [
  | none ↦ none
  | some rest ↦ some (p ∷ rest)
]

-- The last peer of the profile is changed, and `change` does the rest.
pub with_peer : (PeerSummary → PeerSummary) → (Progress → Progress) → Progress → Checked Progress
with_peer f change s = elim (update_last f s.profile.peers) [
  | none ↦ panic
  | some peers ↦ ok (change (record s { profile = record s.profile { peers = peers } }))
]

pub first_endpoint : Text → Progress → Progress
first_endpoint value s =
    if is_empty s.profile.endpoint
    then record s { profile = record s.profile { endpoint = value } }
    else s

-- What a setting of a [Peer] does to its last peer and the profile.
pub set_peer : KeyTools → ℕ → Text → Text → Progress → Checked Progress
set_peer tools line key value s =
    if text_eq key (codes "publickey")
    then (if not (is_key tools value)
        then err (bad_public_key line)
        else with_peer (λ p. record p { public_key = value })
            (λ t. record t { peer_has_key = true }) s)
    else if text_eq key (codes "presharedkey") && not (is_key tools value)
    then err (bad_preshared_key line)
    else if text_eq key (codes "allowedips")
    then with_peer (λ p. record p { allowed_ips = p.allowed_ips ++ split_list value })
        (λ t. record t {
          peer_has_allowed = true;
          profile = record t.profile { allowed_ips = t.profile.allowed_ips ++ split_list value };
        })
        s
    else if text_eq key (codes "endpoint")
    then with_peer (λ p. record p { endpoint = some value }) (first_endpoint value) s
    else if text_eq key (codes "persistentkeepalive")
    then with_peer (λ p. record p { persistent_keepalive = some value }) (λ t. t) s
    else with_peer (λ p. p) (λ t. t) s

pub peer_setting : KeyTools → ℕ → Text → Text → Progress → Checked Progress
peer_setting tools line key value s =
    if not (has_text key peer_keys)
    then err (not_peer line key)
    else if is_empty s.profile.peers
    then panic
    else set_peer tools line key value s

pub setting_in : Section → KeyTools → ℕ → Text → Text → Progress → Checked Progress
setting_in outside tools line key value s = err (outside_section line key)
setting_in interface tools line key value s = interface_setting tools line key value s
setting_in peer tools line key value s = peer_setting tools line key value s

pub apply_setting : KeyTools → ℕ → Text → Text → Progress → Checked Progress
apply_setting tools line key value s =
    if has_text key hook_keys
    then err (hook line key)
    else setting_in s.section tools line key value s

-- What a line is, without its comment and the white space around it.
pub data Line : Type 0 where
  blank : Line
  heading : Text → Line
  setting : (key value : Text) → Line
  unreadable : Line

abbrev first_part : List Text → Text
first_part [] = []
first_part (part ∷ parts) = part

abbrev pub read_content : Text → Line
read_content [] = blank
read_content (c ∷ rest) = elim (c == b'[') [
  | true ↦ heading (c ∷ rest)
  | false ↦ elim (split_once b'=' (c ∷ rest)) [
    | none ↦ unreadable
    | some (key, value) ↦ setting (to_ascii_lowercase (trim key)) (trim value)
  ]
]

pub read_line : Text → Line
read_line raw = read_content (trim (first_part (split b'#' raw)))

pub check_line : KeyTools → ℕ → Line → Progress → Checked Progress
check_line tools line blank s = ok s
check_line tools line (heading text) s = do close_peer line s; enter_section line text s
check_line tools line (setting key value) s = apply_setting tools line key value s
check_line tools line unreadable s = err (expected_pair line)

-- The loop, from a line on.
pub check_lines : KeyTools → ℕ → List Text → Progress → Checked Progress
check_lines tools line [] s = ok s
check_lines tools line (raw ∷ rest) s = do
  next ← check_line tools line (read_line raw) s
  check_lines tools (line + 1) rest next

pub finish : Progress → Checked DirectProfile
finish s = do
  bail_if (not (s.interfaces == 1)) (interface_count s.interfaces)
  bail_if (s.peers == 0) no_peer
  bail_if (not s.private_key) no_private_key
  bail_if (is_empty s.profile.address) no_address
  bail_if (is_empty s.profile.endpoint) no_endpoint
  ok s.profile

pub validate : KeyTools → Text → Text → Checked DirectProfile
validate tools text name = do
  let all_lines = lines (normalise text)
  s ← check_lines tools 1 all_lines (start name)
  close_peer (length all_lines + 1) s
  finish s
