-- ===== src/Dns/Server.antt =====
-- crates/wsl-dns/src/server.rs: one query in, at most one reply out. What the call finds outside, the
-- files and the answers of other resolvers, is the record `World`.
pub mod Handling
mod Runs
use wslvpn.Base.{
  ℕ, Bool, true, false, not, ◌&&◌, Option, none, some, List, [], ◌∷◌, ◌==◌, if◌then◌else◌, filter,
}
use wslvpn.Base.Text.{Text, codes, text_eq}
use wslvpn.Base.Net.{IpAddr, ip_eq}
use wslvpn.Base.Strings.{split, lines, split_whitespace, to_ascii_lowercase}
use wslvpn.Dns.Hosts
use wslvpn.Dns.Hosts.{IpText, Overrides, no_overrides, lookup}
use wslvpn.Dns.Wire
use wslvpn.Dns.Wire.{
  Question, truncated, malformed, rcode_servfail, parse_query, answer, error, error_for_id,
}

pub record SocketAddr : Type 0 where
  pub ip : IpAddr
  pub port : ℕ

pub data Upstreams : Type 0 where
  fixed : List SocketAddr → Upstreams
  resolv_conf : Upstreams

pub data Transport : Type 0 where
  udp tcp : Transport

pub record Config : Type 0 where
  pub upstreams : Upstreams
  pub ttl : ℕ

pub record Table : Type 0 where
  pub overrides : Overrides
  pub modified : Option ℕ

pub record Shared : Type 0 where
  pub config : Config
  pub own : SocketAddr
  pub table : Table

-- What reading the hosts file gives.
pub data FileRead : Type 0 where
  file : Text → FileRead
  missing unreadable : FileRead

-- `forward` is what `forward_udp` and `forward_tcp` come back with, none for a failure.
pub record World : Type 0 where
  pub modified : Option ℕ
  pub hosts : FileRead
  pub resolv_conf : Option Text
  pub forward : Transport → SocketAddr → List ℕ → ℕ → Option (List ℕ)

pub probe_name : Text
probe_name = codes "health.wsl-zerotrust.invalid"

abbrev pub socket_eq : SocketAddr → SocketAddr → Bool
socket_eq a b = ip_eq a.ip b.ip && a.port == b.port

abbrev first_part : List Text → Text
first_part [] = []
first_part (part ∷ parts) = part

-- The server of one line of a resolv.conf.
pub nameserver : IpText → List Text → Option SocketAddr
nameserver ips (key ∷ (address ∷ rest)) =
    if text_eq key (codes "nameserver")
    then (elim (ips.parse (first_part (split b'%' address))) [
      | none ↦ none
      | some ip ↦ some (record { ip = ip; port = 53 })
    ])
    else none
nameserver ips fields = none

pub nameservers : IpText → List Text → List SocketAddr
nameservers ips [] = []
nameservers ips (line ∷ rest) = elim (nameserver ips (split_whitespace line)) [
  | none ↦ nameservers ips rest
  | some server ↦ server ∷ nameservers ips rest
]

pub parse_resolv_conf : IpText → Text → List SocketAddr
parse_resolv_conf ips text = nameservers ips (lines text)

pub all_upstreams : IpText → World → Upstreams → List SocketAddr
all_upstreams ips world (fixed servers) = servers
all_upstreams ips world resolv_conf = elim world.resolv_conf [
  | none ↦ []
  | some text ↦ parse_resolv_conf ips text
]

pub resolve : IpText → World → Shared → List SocketAddr
resolve ips world shared =
    filter (λ a. not (socket_eq a shared.own)) (all_upstreams ips world shared.config.upstreams)

-- `load`; none is an error.
pub load : IpText → FileRead → Option Overrides
load ips (file text) = elim (Hosts.parse ips text) [
  | Hosts.ok table ↦ some table
  | Hosts.err e ↦ none
]
load ips missing = some no_overrides
load ips unreadable = none

pub same_time : Option ℕ → Option ℕ → Bool
same_time none none = true
same_time none (some b) = false
same_time (some a) none = false
same_time (some a) (some b) = a == b

-- A table that cannot be read leaves the previous one, and is not read again before the file changes.
pub reload : IpText → World → Table → Table
reload ips world table = elim (load ips world.hosts) [
  | none ↦ record table { modified = world.modified }
  | some overrides ↦ record { overrides = overrides; modified = world.modified }
]

pub refresh : IpText → World → Shared → Shared
refresh ips world shared =
    if same_time shared.table.modified world.modified
    then shared
    else record shared { table = reload ips world shared.table }

-- The loop over the servers: the first answer.
pub forward_all : (SocketAddr → Option (List ℕ)) → List SocketAddr → Option (List ℕ)
forward_all ask [] = none
forward_all ask (server ∷ rest) = elim (ask server) [
  | some reply ↦ some reply
  | none ↦ forward_all ask rest
]

abbrev or_servfail : Question → Option (List ℕ) → List ℕ
or_servfail question none = error question rcode_servfail
or_servfail question (some reply) = reply

-- A question that is not the probe's, with the table as it is now.
pub resolve_question : IpText → World → Shared → List ℕ → Transport → Question → List ℕ
resolve_question ips world shared query transport question =
    elim (lookup shared.table.overrides question.name) [
      | some records ↦ answer question records.addresses shared.config.ttl
      | none ↦ or_servfail question (
          forward_all (λ server. world.forward transport server query question.id)
            (resolve ips world shared))
    ]

pub handle_question : IpText → World → Shared → List ℕ → Transport → Question → List ℕ × Shared
handle_question ips world shared query transport question =
    if text_eq (to_ascii_lowercase question.name) (to_ascii_lowercase probe_name)
    then (answer question [] 0, shared)
    else (
      resolve_question ips world (refresh ips world shared) query transport question,
      refresh ips world shared,
    )

-- A panic of `parse_query`, which does not happen, ends the task without a reply.
pub handle : IpText → World → Shared → List ℕ → Transport → Option (List ℕ) × Shared
handle ips world shared query transport = elim (parse_query query) [
  | Wire.ok question ↦
      let (reply, after) = handle_question ips world shared query transport question in
      (some reply, after)
  | Wire.err e ↦
      (elim e [ truncated ↦ none | malformed id rcode ↦ some (error_for_id id rcode) ], shared)
  | Wire.panic ↦ (none, shared)
  | Wire.stuck ↦ (none, shared)
]
