-- ===== src/Dns/Server/Runs.antt =====
-- A query for an overridden name, and the theorems on `handle` at it.
use wslvpn.Base.{ℕ, ◌≡◌, ◌≢◌, refl, none, some, List, [], ◌∷◌, arith}
use wslvpn.Base.Text.{codes, text_eq}
use wslvpn.Base.TextMap.{get}
use wslvpn.Base.Net.{v4}
use wslvpn.Base.Strings.{to_ascii_lowercase, trim_end, from_utf8_lossy, join}
use wslvpn.Dns.Hosts.{IpText, Records, no_overrides, lookup, query_name}
use wslvpn.Dns.Hosts.Tables.{IsWellFormed}
use wslvpn.Dns.Wire
use wslvpn.Dns.Wire.{Question, parse_query, parse_question, labels_loop}
use wslvpn.Dns.Wire.Bytes.{u16_at, slice}
use wslvpn.Dns.Server.{
  Shared, World, unreadable, udp, fixed, refresh, reload, load, same_time, handle,
}
use wslvpn.Dns.Server.Handling.{handle-IsWellFormed, handle-ne-none, handle_local}

abbrev raw_ips : IpText
raw_ips = record { parse = λ text. some (v4 text); to_string = λ ip. [] }

abbrev silent : World
silent = record {
  modified = some 2;
  hosts = unreadable;
  resolv_conf = none;
  forward = λ transport server query id. none;
}

abbrev idle : Shared
idle = record {
  config = record { upstreams = fixed []; ttl = 60 };
  own = record { ip = v4 (127 ∷ 0 ∷ 0 ∷ 1 ∷ []); port = 53 };
  table = record { overrides = no_overrides; modified = some 1 };
}

-- A header that asks one question, and a name of one letter.
abbrev ask_a : List ℕ
ask_a = 0 ∷ 7 ∷ 1 ∷ 0 ∷ 0 ∷ 1 ∷ 0 ∷ 0 ∷ 0 ∷ 0 ∷ 0 ∷ 0 ∷ 1 ∷ b'a' ∷ 0 ∷ 0 ∷ 1 ∷ 0 ∷ 1 ∷ []

handle-IsWellFormed_example : IsWellFormed (handle raw_ips silent idle ask_a udp).1.table.overrides
handle-IsWellFormed_example =
    handle-IsWellFormed raw_ips silent idle ask_a udp
      (record { exact_names = (tt, tt); suffixes = (tt, tt) })

handle-ne-none_example : (handle raw_ips silent idle ask_a udp).0 ≢ none
handle-ne-none_example = handle-ne-none raw_ips silent idle ask_a udp (omega arith)

abbrev asked : Question
asked = record {
  id = 7;
  name = codes "a";
  qtype = 1;
  qclass = 1;
  flags = 256;
  raw = 1 ∷ b'a' ∷ 0 ∷ 0 ∷ 1 ∷ 0 ∷ 1 ∷ [];
}

parsed : parse_query ask_a ≡ Wire.ok asked
unfolding parse_query parse_question labels_loop u16_at slice from_utf8_lossy join
parsed = refl

abbrev home : Records
home = record { addresses = v4 (10 ∷ 0 ∷ 0 ∷ 5 ∷ []) ∷ [] }

-- The table of `idle` with a name, and a world where another resolver answers.
abbrev ready : Shared
ready = record idle {
  table = record {
    overrides = record no_overrides { exact = (codes "a", home) ∷ [] };
    modified = some 1;
  };
}

abbrev talking : World
talking = record silent { forward = λ transport server query id. some [] }

overridden : lookup (refresh raw_ips silent ready).table.overrides (codes "a") ≡ some home
unfolding refresh reload load same_time lookup query_name get text_eq to_ascii_lowercase trim_end
overridden = refl

handle_local_example :
    handle raw_ips silent ready ask_a udp ≡ handle raw_ips talking ready ask_a udp
handle_local_example =
    handle_local raw_ips silent talking ready ask_a udp {question = asked} {records = home} refl
      refl parsed overridden
