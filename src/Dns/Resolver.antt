-- ===== src/Dns/Resolver.antt =====
-- crates/wsl-dns/src/resolver.rs: the files of /etc/resolver. A directory is the list of its entries in
-- the order in which `read_dir` lists them; what the file system refuses is the parameter `Disk`.
pub mod Foreign
pub mod Writing
pub mod Removing
pub mod Routed
mod Runs
use wslvpn.Base.{
  ℕ, Bool, true, false, not, ◌&&◌, ◌||◌, Option, none, some, List, [], ◌∷◌, ◌++◌, map,
  if◌then◌else◌, filter,
}
use wslvpn.Base.Text.{Text, codes, text_eq, has_text}
use wslvpn.Base.TextMap.{TextMap, get, remove, put}
use wslvpn.Base.Sorting.{sort, dedup}
use wslvpn.Base.Net.{IpAddr}
use wslvpn.Base.Strings.{lines}
use wslvpn.Dns.Hosts.{IpText, NameError, Result, ok, err, ◌>>=◌, map_err, starts_with, normalise}

-- `content` is none where `read_to_string` fails: a directory, or a file that is no UTF-8.
pub record FileEntry : Type 0 where
  pub is_file : Bool
  pub content : Option Text

abbrev pub Directory : Type 0
Directory = TextMap FileEntry

pub record Disk : Type 0 where
  pub can_create : Bool
  pub can_list : Bool
  pub can_write : Text → Bool
  pub can_remove : Text → Bool
  pub port_text : ℕ → Text

pub data SyncError : Type 0 where
  bad_domain : NameError → SyncError
  wildcard : Text → SyncError
  not_created not_listed : SyncError
  not_written not_removed : Text → SyncError

pub record SyncReport : Type 0 where
  pub written : List Text
  pub removed : List Text
  pub skipped : List Text

pub marker : Text
marker = codes "# Managed by WSL Zero Trust (`wsl dns`). Do not edit; `wsl dns apply` rewrites it."

pub render : IpText → Disk → IpAddr → ℕ → Text
render ips disk address port =
    marker
    ++ (10
        ∷ (codes "nameserver "
            ++ (ips.to_string address
                ++ (10 ∷ (codes "port " ++ (disk.port_text port ++ 10 ∷ []))))))

pub is_ours : Text → Bool
is_ours text = elim (lines text) [ [] ↦ false | line ∷ rest ↦ text_eq line marker ]

pub read : Text → Directory → Option Text
read name dir = elim (get name dir) [ none ↦ none | some entry ↦ entry.content ]

-- `std::fs::write`, which does not write over a directory.
pub can_place : Disk → Text → Directory → Bool
can_place disk name dir = elim (get name dir) [
  | none ↦ disk.can_write name
  | some entry ↦ disk.can_write name && entry.is_file
]

pub place : Text → Text → Directory → Directory
place name body dir = put name (record { is_file = true; content = some body }) dir

-- What the loop finds at the path of a domain.
pub data Found : Type 0 where
  foreign current stale : Found

pub inspect : Text → Text → Directory → Found
inspect body domain dir = elim (read domain dir) [
  | none ↦ stale
  | some existing ↦
      if not (is_ours existing) then foreign else if text_eq existing body then current else stale
]

pub write_domains :
    Disk → Text → List Text → SyncReport → Directory → Result SyncError SyncReport × Directory
write_domains disk body [] report dir = (ok report, dir)
write_domains disk body (domain ∷ rest) report dir = elim (inspect body domain dir) [
  | foreign ↦
      write_domains disk body rest (record report { skipped = report.skipped ++ domain ∷ [] }) dir
  | current ↦ write_domains disk body rest report dir
  | stale ↦ elim (can_place disk domain dir) [
    | false ↦ (err (not_written domain), dir)
    | true ↦
        write_domains disk body rest (record report { written = report.written ++ domain ∷ [] })
          (place domain body dir)
  ]
]

abbrev pub holds_ours : Option Text → Bool
holds_ours none = false
holds_ours (some text) = is_ours text

-- Whether the second loop removes an entry.
pub is_stale : List Text → Text → FileEntry → Directory → Bool
is_stale wanted name entry dir =
    if has_text name wanted || not entry.is_file then false else holds_ours (read name dir)

pub remove_stale :
    Disk → List Text → Directory → SyncReport → Directory → Result SyncError SyncReport × Directory
remove_stale disk wanted [] report dir = (ok report, dir)
remove_stale disk wanted ((name, entry) ∷ rest) report dir = elim (is_stale wanted name entry dir) [
  | false ↦ remove_stale disk wanted rest report dir
  | true ↦ elim (disk.can_remove name) [
    | false ↦ (err (not_removed name), dir)
    | true ↦
        remove_stale disk wanted rest (record report { removed = report.removed ++ name ∷ [] })
          (remove name dir)
  ]
]

pub normalise_all : List Text → Result SyncError (List Text)
normalise_all [] = ok []
normalise_all (domain ∷ domains) = do
  canonical ← map_err bad_domain (normalise domain)
  rest ← normalise_all domains
  ok (canonical ∷ rest)

pub refuse_wildcards : List Text → Result SyncError (List Text)
refuse_wildcards wanted = elim (filter (starts_with b'*') wanted) [
  | [] ↦ ok wanted
  | wild ∷ _ ↦ err (wildcard wild)
]

pub wanted_domains : List Text → Result SyncError (List Text)
wanted_domains domains = do
  canonical ← normalise_all domains
  refuse_wildcards (dedup (sort canonical))

abbrev pub no_report : SyncReport
no_report = record { written = []; removed = []; skipped = [] }

abbrev pub sort_removed : SyncReport → SyncReport
sort_removed report = record report { removed = sort report.removed }

-- The second loop, where the first one has not failed.
pub then_remove :
    Disk
    → List Text
    → Result SyncError SyncReport
    → Directory
    → Result SyncError SyncReport × Directory
then_remove disk wanted (err e) dir = (err e, dir)
then_remove disk wanted (ok report) dir =
    if disk.can_list
    then (let (done, last) = remove_stale disk wanted dir report dir in
        ((done >>= λ r. ok (sort_removed r)), last))
    else (err not_listed, dir)

-- The directory, once it is there.
pub sync_wanted : Disk → Text → List Text → Directory → Result SyncError SyncReport × Directory
sync_wanted disk body wanted dir =
    if disk.can_create
    then (let (written, after) = write_domains disk body wanted no_report dir in
        then_remove disk wanted written after)
    else (err not_created, dir)

-- `body` is `render address port`.
pub sync :
    IpText → Disk → List Text → IpAddr → ℕ → Directory → Result SyncError SyncReport × Directory
sync ips disk domains address port dir = elim (wanted_domains domains) [
  | err e ↦ (err e, dir)
  | ok wanted ↦ sync_wanted disk (render ips disk address port) wanted dir
]

pub routed : Directory → List Text
routed dir = sort (map (λ (name, _). name) (filter (λ (name, _). holds_ours (read name dir)) dir))
