-- ===== src/Dns/Resolver/Foreign.antt =====
-- What `sync` of crates/wsl-dns/src/resolver.rs leaves alone.
use wslvpn.Base.{
  ℕ, ◌≡◌, ◌≢◌, refl, sym, ◌∙◌, ◌⊎◌, inl, inr, true, false, some, List, [], ◌∷◌, arith,
  if◌then◌else◌, Bool-cases, if_both,
}
use wslvpn.Base.Text.{Text, text_eq, text_eq_iff}
use wslvpn.Base.TextMap.{get, remove, get-remove, get-put}
use wslvpn.Base.Net.{IpAddr}
use wslvpn.Dns.Hosts.{IpText, Result, ok, err}
use wslvpn.Dns.Hosts.Tables.{Result-cases}
use wslvpn.Dns.Resolver.{
  FileEntry, Directory, Disk, SyncError, SyncReport, is_ours, read, can_place, place, Found,
  foreign, current, stale, inspect, write_domains, is_stale, remove_stale, wanted_domains,
  then_remove, sync_wanted, sync,
}

-- An entry of someone else: a text that does not start with the marker.
abbrev pub IsForeign : FileEntry → Type 0
IsForeign entry = (text : Text) × (entry.content ≡ some text) × (is_ours text ≡ false)

pub Found-cases : (x : Found) → (x ≡ foreign) ⊎ ((x ≡ current) ⊎ (x ≡ stale))
Found-cases foreign = inl refl
Found-cases current = inr (inl refl)
Found-cases stale = inr (inr refl)

pub get-place :
    (j name body : Text) (dir : Directory)
    → get j (place name body dir) ≡ (
        if text_eq name j then some (record { is_file = true; content = some body }) else get j dir)
unfolding place
get-place j name body dir = get-put j name _ dir

foreign-ne-stale : foreign ≢ stale
foreign-ne-stale h = cc

module _ (name : Text) (entry : FileEntry) (other : IsForeign entry) where
  read-foreign :
      (dir : Directory)
      → get name dir ≡ some entry
      → (text : Text) × (read name dir ≡ some text) × (is_ours text ≡ false)
  unfolding read
  read-foreign dir here =
      let (text, held, unmarked) = other in (text, rw (here, read) held, unmarked)

  inspect-foreign :
      (body domain : Text) (dir : Directory)
      → get name dir ≡ some entry
      → text_eq domain name ≡ true
      → inspect body domain dir ≡ foreign
  unfolding inspect
  inspect-foreign body domain dir here same =
      let (text, held, unmarked) = read-foreign dir here in
      rw ((text_eq_iff domain name).0 same) (rw (held, inspect) (rw unmarked refl))

  is_stale-foreign :
      (wanted : List Text) (key : Text) (listed : FileEntry) (dir : Directory)
      → get name dir ≡ some entry
      → text_eq key name ≡ true
      → is_stale wanted key listed dir ≡ false
  unfolding is_stale
  is_stale-foreign wanted key listed dir here same =
      let (text, held, unmarked) = read-foreign dir here in
      rw ((text_eq_iff key name).0 same) (rw (held) (rw unmarked (ground arith)))

  write_domains-foreign :
      (disk : Disk) (body : Text) (domains : List Text) (report : SyncReport) (dir : Directory)
      → get name dir ≡ some entry
      → get name (write_domains disk body domains report dir).1 ≡ some entry
  unfolding write_domains
  write_domains-foreign disk body [] report dir here = here
  write_domains-foreign disk body (domain ∷ rest) report dir here =
      elim (Found-cases (inspect body domain dir)) [
        | inl e ↦ rw (e, write_domains) (write_domains-foreign disk body rest _ dir here)
        | inr (inl e) ↦ rw (e, write_domains) (write_domains-foreign disk body rest _ dir here)
        | inr (inr e) ↦ elim (Bool-cases (can_place disk domain dir)) [
          | inr c ↦ rw (e, c, write_domains) here
          | inl c ↦
              rw (e, c, write_domains)
                (write_domains-foreign disk body rest _ (place domain body dir) (
                  get-place name domain body dir ∙ elim (Bool-cases (text_eq domain name)) [
                    | inr t ↦ rw t here
                    | inl t ↦
                        absurd (foreign-ne-stale (sym (inspect-foreign body domain dir here t) ∙ e))
                  ]))
        ]
      ]

  remove_stale-foreign :
      (disk : Disk) (wanted : List Text) (entries : Directory) (report : SyncReport)
      (dir : Directory)
      → get name dir ≡ some entry
      → get name (remove_stale disk wanted entries report dir).1 ≡ some entry
  unfolding remove_stale
  remove_stale-foreign disk wanted [] report dir here = here
  remove_stale-foreign disk wanted ((key, listed) ∷ rest) report dir here =
      elim (Bool-cases (is_stale wanted key listed dir)) [
        | inr e ↦ rw (e, remove_stale) (remove_stale-foreign disk wanted rest report dir here)
        | inl e ↦ elim (Bool-cases (disk.can_remove key)) [
          | inr c ↦ rw (e, c, remove_stale) here
          | inl c ↦
              rw (e, c, remove_stale)
                (remove_stale-foreign disk wanted rest _ (remove key dir) (
                  get-remove name key dir ∙ elim (Bool-cases (text_eq key name)) [
                    | inr t ↦ rw t here
                    | inl t ↦ cc (is_stale-foreign wanted key listed dir here t)
                  ]))
        ]
      ]

  then_remove-foreign :
      (disk : Disk) (wanted : List Text) (r : Result SyncError SyncReport) (dir : Directory)
      → get name dir ≡ some entry
      → get name (then_remove disk wanted r dir).1 ≡ some entry
  unfolding then_remove
  then_remove-foreign disk wanted (err e) dir here = here
  then_remove-foreign disk wanted (ok report) dir here =
      if_both (λ (r : Result SyncError SyncReport × Directory). get name r.1 ≡ some entry)
        disk.can_list _ _ (remove_stale-foreign disk wanted dir report dir here) here

  sync_wanted-foreign :
      (disk : Disk) (body : Text) (wanted : List Text) (dir : Directory)
      → get name dir ≡ some entry
      → get name (sync_wanted disk body wanted dir).1 ≡ some entry
  unfolding sync_wanted
  sync_wanted-foreign disk body wanted dir here =
      if_both (λ (r : Result SyncError SyncReport × Directory). get name r.1 ≡ some entry)
        disk.can_create _ _
        (then_remove-foreign disk wanted _ _ (write_domains-foreign disk body wanted _ dir here))
        here

-- A file of someone else, one whose text can be read and does not start with the marker, is left as
-- it is by every `sync`, whether it succeeds or fails on the way.
pub sync-IsForeign :
    (ips : IpText) (disk : Disk) (domains : List Text) (address : IpAddr) (port : ℕ)
    (dir : Directory) (name : Text) (entry : FileEntry)
    → IsForeign entry
    → get name dir ≡ some entry
    → get name (sync ips disk domains address port dir).1 ≡ some entry
unfolding sync
sync-IsForeign ips disk domains address port dir name entry other here =
    elim (Result-cases (wanted_domains domains)) [
      | inr (x, e) ↦ rw (e, sync) here
      | inl (wanted, e) ↦ rw (e, sync) (sync_wanted-foreign name entry other disk _ wanted dir here)
    ]
