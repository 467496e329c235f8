-- ===== src/Dns/Resolver/Routed.antt =====
-- Where a `sync` of crates/wsl-dns/src/resolver.rs that succeeds leaves the directory.
use wslvpn.Base.{◌≡◌, true, some, List, All, Any}
use wslvpn.Base.Text.{Text}
use wslvpn.Base.TextMap.{get}
use wslvpn.Dns.Hosts.{Result, ok}
use wslvpn.Dns.Resolver.{FileEntry, Directory, SyncError, SyncReport, is_ours}
use wslvpn.Dns.Resolver.Writing.{IsServed}

-- Every file with the marker is that of a wanted domain, with the wanted text.
abbrev pub IsRouted : Text → List Text → Directory → Type 0
IsRouted body wanted dir =
    (name : Text) (entry : FileEntry) (text : Text)
    → get name dir ≡ some entry
    → entry.is_file ≡ true
    → entry.content ≡ some text
    → is_ours text ≡ true
    → Any (λ domain. domain ≡ name) wanted × (text ≡ body)

-- What `sync` promises: the wanted domains are served, and nothing else is routed.
pub record IsSynced (body : Text) (wanted : List Text) (dir : Directory) : Type 0 where
  pub served : All (λ domain. IsServed body domain dir) wanted
  pub only_wanted : IsRouted body wanted dir

abbrev Finishes : Text → List Text → Result SyncError SyncReport × Directory → Type 0
Finishes body wanted r = (done : SyncReport) → r.0 ≡ ok done → IsSynced body wanted r.1
