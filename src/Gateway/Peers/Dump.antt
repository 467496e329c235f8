-- ===== src/Gateway/Peers/Dump.antt =====
-- `parse_wg_dump` of crates/wsl-gateway/src/wg.rs: what `wg show <interface> dump` prints.
use wslvpn.Base.{
  not, Option, none, some, List, [], ◌∷◌, map, if◌then◌else◌, ◌||◌, filter, drop, is_empty,
}
use wslvpn.Base.Text.{Text, codes, text_eq}
use wslvpn.Base.Strings.{split, trim, lines}
use wslvpn.Gateway.Peers.{LivePeer}

unfoldable pub dump_allowed_ips : Text → List Text
dump_allowed_ips raw =
    if text_eq raw (codes "(none)") || is_empty raw
    then []
    else filter (λ ip. not (is_empty ip)) (map trim (split b',' raw))

-- The fields of a line that are read: the first and the fourth.
unfoldable pub dump_fields : List Text → Option LivePeer
dump_fields (key ∷ (preshared ∷ (endpoint ∷ (raw ∷ rest)))) =
    if is_empty key
    then none
    else some (record { public_key = key; allowed_ips = dump_allowed_ips raw })
dump_fields fields = none

unfoldable pub dump_peers : List Text → List LivePeer
dump_peers [] = []
dump_peers (line ∷ rest) =
    let later = dump_peers rest in
    elim (dump_fields (split 9 line)) [ none ↦ later | some peer ↦ peer ∷ later ]

unfoldable pub parse_wg_dump : Text → List LivePeer
parse_wg_dump dump = dump_peers (drop 1 (lines dump))
