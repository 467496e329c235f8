-- ===== src/Dns/Server/Handling.antt =====
-- What `handle` of crates/wsl-dns/src/server.rs answers, and what it depends on.
use wslvpn.Base.{
  ℕ, ◌≤◌, ◌≡◌, ◌≢◌, refl, ap, subst, ◌∙◌, inl, inr, none, some, List, arith, if◌then◌else◌,
  Option-cases, some_inj, if_both, length,
}
use wslvpn.Dns.Hosts
use wslvpn.Dns.Hosts.Tables.{IsWellFormed, parse-IsWellFormed, Result-cases}
use wslvpn.Dns.Hosts.{IpText, Overrides, Records, lookup, no_overrides}
use wslvpn.Dns.Wire
use wslvpn.Dns.Wire.Query.{parse_query_total}
use wslvpn.Dns.Wire.{Question, header_len, truncated, malformed, parse_query}
use wslvpn.Dns.Server.{
  Table, Shared, World, FileRead, file, missing, unreadable, Transport, same_time, load, reload,
  refresh, resolve_question, handle_question, handle,
}

load-IsWellFormed :
    (ips : IpText) (read : FileRead) {table : Overrides}
    → load ips read ≡ some table
    → IsWellFormed table
unfolding load
load-IsWellFormed ips (file text) h = elim (Result-cases (Hosts.parse ips text)) [
  | inl (t, e) ↦ parse-IsWellFormed ips text (e ∙ ap Hosts.ok (cc (rw (e, load) at h)))
  | inr (x, e) ↦ cc (rw (e, load) at h)
]
load-IsWellFormed ips missing {table} h =
    let same : no_overrides ≡ table = some_inj h in
    subst IsWellFormed same (record { exact_names = (tt, tt); suffixes = (tt, tt) })
load-IsWellFormed ips unreadable h = cc

reload-IsWellFormed :
    (ips : IpText) (world : World) (table : Table)
    → IsWellFormed table.overrides
    → IsWellFormed (reload ips world table).overrides
unfolding reload
reload-IsWellFormed ips world table w = elim (Option-cases (load ips world.hosts)) [
  | inl e ↦ rw (e, reload) w
  | inr (overrides, e) ↦ rw (e, reload) (load-IsWellFormed ips world.hosts e)
]

refresh-IsWellFormed :
    (ips : IpText) (world : World) (shared : Shared)
    → IsWellFormed shared.table.overrides
    → IsWellFormed (refresh ips world shared).table.overrides
unfolding refresh
refresh-IsWellFormed ips world shared w =
    if_both (λ (s : Shared). IsWellFormed s.table.overrides) _ _ _ w
      (reload-IsWellFormed ips world shared.table w)

-- Whatever the hosts file holds by now, the table stays well-formed over every call: a file that
-- cannot be parsed does not get into it.
pub handle-IsWellFormed :
    (ips : IpText) (world : World) (shared : Shared) (query : List ℕ) (transport : Transport)
    → IsWellFormed shared.table.overrides
    → IsWellFormed (handle ips world shared query transport).1.table.overrides
unfolding handle handle_question
handle-IsWellFormed ips world shared query transport w = elim (parse_query_total query) [
  | inl (short, e) ↦ rw (e, handle) w
  | inr (long, (id, there, inr (inl e))) ↦ rw (e, handle) w
  | inr (long, (id, there, inr (inr e))) ↦ rw (e, handle) w
  | inr (long, (id, there, inl (q, e, same))) ↦
      rw (e, handle)
        (if_both (λ (r : List ℕ × Shared). IsWellFormed r.1.table.overrides) _ _ _ w
          (refresh-IsWellFormed ips world shared w))
]

-- Every datagram that has a whole header gets a reply.
pub handle-ne-none :
    (ips : IpText) (world : World) (shared : Shared) (query : List ℕ) (transport : Transport)
    → header_len ≤ length query
    → (handle ips world shared query transport).0 ≢ none
unfolding handle
handle-ne-none ips world shared query transport h = elim (parse_query_total query) [
  | inl (short, e) ↦ absurd (omega arith)
  | inr (long, (id, there, inr (inl e))) ↦ rw (e, handle) (λ k. cc)
  | inr (long, (id, there, inr (inr e))) ↦ rw (e, handle) (λ k. cc)
  | inr (long, (id, there, inl (q, e, same))) ↦ rw (e, handle) (λ k. cc)
]

-- Two worlds in which a call does the same to the table.
module _ (ips : IpText) (w w' : World) (same_file : w.hosts ≡ w'.hosts)
    (same_stamp : w.modified ≡ w'.modified) (shared : Shared) where
  reload_same : (table : Table) → reload ips w table ≡ reload ips w' table
  unfolding reload
  reload_same table = λ i. elim (load ips (same_file i)) [
    | none ↦ record table { modified = same_stamp i }
    | some overrides ↦ record { overrides = overrides; modified = same_stamp i }
  ]

  refresh_same : refresh ips w shared ≡ refresh ips w' shared
  unfolding refresh
  refresh_same = λ i.
      if same_time shared.table.modified (same_stamp i)
      then shared
      else record shared { table = reload_same shared.table i }

  resolve_question_same :
      (query : List ℕ) (transport : Transport) (question : Question)
      → resolve_question ips w (refresh ips w shared) query transport question
        ≡ resolve_question ips w' (refresh ips w' shared) query transport question
      → handle_question ips w shared query transport question
        ≡ handle_question ips w' shared query transport question
  unfolding handle_question
  resolve_question_same query transport question e = rw (e, refresh_same) refl

  handle_same :
      (query : List ℕ) (transport : Transport)
      → ((question : Question)
          → parse_query query ≡ Wire.ok question
          → handle_question ips w shared query transport question
            ≡ handle_question ips w' shared query transport question)
      → handle ips w shared query transport ≡ handle ips w' shared query transport
  unfolding handle
  handle_same query transport f = elim (parse_query_total query) [
    | inl (short, e) ↦ rw (e, handle) refl
    | inr (long, (id, there, inr (inl e))) ↦ rw (e, handle) refl
    | inr (long, (id, there, inr (inr e))) ↦ rw (e, handle) refl
    | inr (long, (id, there, inl (q, e, same))) ↦ rw (e, handle) (rw (f q e) refl)
  ]

-- A question for an overridden name is answered the same whatever other resolvers and the resolv.conf
-- say: nothing of it is forwarded.
pub handle_local :
    (ips : IpText) (w w' : World) (shared : Shared) (query : List ℕ) (transport : Transport)
    {question : Question} {records : Records}
    → w.hosts ≡ w'.hosts
    → w.modified ≡ w'.modified
    → parse_query query ≡ Wire.ok question
    → lookup (refresh ips w shared).table.overrides question.name ≡ some records
    → handle ips w shared query transport ≡ handle ips w' shared query transport
unfolding resolve_question
handle_local ips w w' shared query transport {question} {records} file_eq stamp_eq parsed found =
    let same = refresh_same ips w w' file_eq stamp_eq shared in
    let found' : lookup (refresh ips w' shared).table.overrides question.name ≡ some records =
      rw (← same) found in
    handle_same ips w w' file_eq stamp_eq shared query transport (λ q e.
      let it : question ≡ q = cc in
      rw (← it) (
        resolve_question_same ips w w' file_eq stamp_eq shared query transport question
          (rw (found, found', resolve_question) (rw same refl))))
