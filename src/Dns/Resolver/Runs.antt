-- ===== src/Dns/Resolver/Runs.antt =====
-- A directory with a file of someone else, and the theorems on `sync` at it.
use wslvpn.Base.{◌≡◌, refl, true, some, [], ◌∷◌}
use wslvpn.Base.Text.{Text, codes, text_eq}
use wslvpn.Base.TextMap.{get}
use wslvpn.Base.Net.{v4}
use wslvpn.Base.Strings.{split, ended_lines, lines}
use wslvpn.Dns.Hosts.{IpText}
use wslvpn.Dns.Resolver.{FileEntry, Directory, Disk, SyncReport, sync, marker, is_ours}
use wslvpn.Dns.Resolver.Foreign.{IsForeign, sync-IsForeign}

abbrev raw_ips : IpText
raw_ips = record { parse = λ text. some (v4 text); to_string = λ ip. codes "127.0.0.1" }

abbrev all_allowed : Disk
all_allowed = record {
  can_create = true;
  can_list = true;
  can_write = λ name. true;
  can_remove = λ name. true;
  port_text = λ port. codes "53";
}

abbrev docker : FileEntry
docker = record { is_file = true; content = some (codes "nameserver 127.0.0.1") }

abbrev shared_dir : Directory
shared_dir = (codes "docker.internal", docker) ∷ []

docker-IsForeign : IsForeign docker
unfolding is_ours lines split ended_lines text_eq marker
docker-IsForeign = (codes "nameserver 127.0.0.1", refl, refl)

sync-IsForeign_example :
    get
      (codes "docker.internal")
      (sync raw_ips all_allowed (codes "a.b" ∷ []) (v4 []) 53 shared_dir).1
    ≡ some docker
unfolding get text_eq
sync-IsForeign_example =
    sync-IsForeign raw_ips all_allowed (codes "a.b" ∷ []) (v4 []) 53 shared_dir
      (codes "docker.internal") docker docker-IsForeign refl

-- The same with a file of an earlier call.
abbrev used_dir : Directory
used_dir =
    (codes "old.b", record { is_file = true; content = some marker })
    ∷ (codes "docker.internal", docker)
    ∷ []

abbrev moved : SyncReport
moved = record { written = codes "a.b" ∷ []; removed = codes "old.b" ∷ []; skipped = [] }
