-- ===== src/Dns/Resolver/Removing.antt =====
-- The second loop of `sync` of crates/wsl-dns/src/resolver.rs, which removes what is not wanted.
use wslvpn.Base.{
  ◌≡◌, ◌≢◌, refl, subst, ◌∙◌, inl, inr, true, false, some, List, [], ◌∷◌, ◌++◌, arith, Bool-cases,
  All,
}
use wslvpn.Base.Text.{Text, text_eq, text_eq_iff, has_text}
use wslvpn.Base.TextMap.{get, remove, get-remove}
use wslvpn.Dns.Hosts.{Result, ok, err}
use wslvpn.Dns.Resolver.{
  FileEntry, Directory, Disk, SyncError, SyncReport, is_ours, read, holds_ours, is_stale,
  remove_stale, not_removed,
}
use wslvpn.Dns.Resolver.Writing.{IsServed, read-get, read-remove}

removed_less :
    (name key : Text) (entry : FileEntry) (dir : Directory)
    → get name (remove key dir) ≡ some entry
    → get name dir ≡ some entry
removed_less name key entry dir h = elim (Bool-cases (text_eq key name)) [
  | inr e ↦ rw (get-remove name key dir, e) at h
  | inl e ↦ cc (rw (get-remove name key dir, e) at h)
]

removed_gone :
    (key : Text) (entry : FileEntry) (dir : Directory) → get key (remove key dir) ≢ some entry
removed_gone key entry dir h = cc (rw (get-remove key key dir, (text_eq_iff key key).1 refl) at h)

stale_other :
    (wanted : List Text) (key name : Text) (listed : FileEntry) (dir : Directory)
    → is_stale wanted key listed dir ≡ true
    → has_text name wanted ≡ true
    → text_eq key name ≡ false
unfolding is_stale
stale_other wanted key name listed dir e w = elim (Bool-cases (text_eq key name)) [
  | inr t ↦ t
  | inl t ↦
      let listed_there : has_text key wanted ≡ true = rw ((text_eq_iff key name).0 t) w in
      cc (rw listed_there at e)
]

module _ (disk : Disk) (wanted : List Text) where
  -- The second loop only takes entries away, and leaves those of the wanted domains.
  pub remove_stale-get :
      (name : Text) (entry : FileEntry) (entries : Directory) (report : SyncReport)
      (dir : Directory)
      → get name (remove_stale disk wanted entries report dir).1 ≡ some entry
      → get name dir ≡ some entry
  unfolding remove_stale
  remove_stale-get name entry [] report dir h = h
  remove_stale-get name entry ((key, listed) ∷ rest) report dir h =
      elim (Bool-cases (is_stale wanted key listed dir)) [
        | inr e ↦ remove_stale-get name entry rest report dir (rw (e, remove_stale) at h)
        | inl e ↦ elim (Bool-cases (disk.can_remove key)) [
          | inr c ↦ rw (e, c, remove_stale) at h
          | inl c ↦
              let before =
                remove_stale-get name entry rest _ (remove key dir)
                  (rw (e, c, remove_stale) at h) in
              removed_less name key entry dir before
        ]
      ]

  pub remove_stale-IsServed :
      (body name : Text) (entries : Directory) (report : SyncReport) (dir : Directory)
      → has_text name wanted ≡ true
      → IsServed body name dir
      → IsServed body name (remove_stale disk wanted entries report dir).1
  unfolding remove_stale
  remove_stale-IsServed body name [] report dir w h = h
  remove_stale-IsServed body name ((key, listed) ∷ rest) report dir w h =
      elim (Bool-cases (is_stale wanted key listed dir)) [
        | inr e ↦ rw (e, remove_stale) (remove_stale-IsServed body name rest report dir w h)
        | inl e ↦ elim (Bool-cases (disk.can_remove key)) [
          | inr c ↦ rw (e, c, remove_stale) h
          | inl c ↦
              let kept : read name (remove key dir) ≡ read name dir =
                read-remove name key dir (stale_other wanted key name listed dir e w) in
              rw (e, c, remove_stale)
                (remove_stale-IsServed body name rest _ (remove key dir) w (rw kept h))
        ]
      ]

  -- What is left of a listed file with the marker is wanted.
  abbrev pub IsCleared : Directory → Text → FileEntry → Type 0
  IsCleared dir key listed =
      (entry : FileEntry) (text : Text)
      → get key dir ≡ some entry
      → listed.is_file ≡ true
      → entry.content ≡ some text
      → is_ours text ≡ true
      → has_text key wanted ≡ true

  abbrev pub Clears : Directory → Result SyncError SyncReport × Directory → Type 0
  Clears entries (err e, dir) = Unit
  Clears entries (ok report, dir) = All (λ (key, listed). IsCleared dir key listed) entries

  first_cleared :
      (key : Text) (listed : FileEntry) (rest : Directory)
      (r : Result SyncError SyncReport × Directory)
      → IsCleared r.1 key listed
      → Clears rest r
      → Clears ((key, listed) ∷ rest) r
  first_cleared key listed rest (ok report, dir) here h = (here, h)
  first_cleared key listed rest (err e, dir) here h = tt

  kept-IsCleared :
      (key : Text) (listed : FileEntry) (dir : Directory)
      → is_stale wanted key listed dir ≡ false
      → IsCleared dir key listed
  unfolding is_stale
  kept-IsCleared key listed dir e entry text found file held ours =
      let content : read key dir ≡ some text = read-get key entry dir found ∙ held in
      let marked : holds_ours (read key dir) ≡ true = rw content ours in
      ground (arith, marked, file)

  pub remove_stale-Clears :
      (entries : Directory) (report : SyncReport) (dir : Directory)
      → Clears entries (remove_stale disk wanted entries report dir)
  unfolding remove_stale
  remove_stale-Clears [] report dir = tt
  remove_stale-Clears ((key, listed) ∷ rest) report dir =
      elim (Bool-cases (is_stale wanted key listed dir)) [
        | inr e ↦ subst (Clears ((key, listed) ∷ rest)) (rw (e, remove_stale) refl) (
            first_cleared key listed rest (remove_stale disk wanted rest report dir)
              (λ entry text found.
                kept-IsCleared key listed dir e entry text
                  (remove_stale-get key entry rest report dir found))
              (remove_stale-Clears rest report dir))
        | inl e ↦ elim (Bool-cases (disk.can_remove key)) [
          | inr c ↦
              subst (Clears ((key, listed) ∷ rest)) {x = (err (not_removed key), dir)}
                (rw (e, c, remove_stale) refl) tt
          | inl c ↦
              let report' = record report { removed = report.removed ++ key ∷ [] } in
              subst (Clears ((key, listed) ∷ rest)) (rw (e, c, remove_stale) refl) (
                first_cleared key listed rest
                  (remove_stale disk wanted rest report' (remove key dir))
                  (λ entry text found. absurd (
                    removed_gone key entry dir
                      (remove_stale-get key entry rest report' (remove key dir) found)))
                  (remove_stale-Clears rest report' (remove key dir)))
        ]
      ]
