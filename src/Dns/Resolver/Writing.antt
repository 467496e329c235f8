-- ===== src/Dns/Resolver/Writing.antt =====
-- The first loop of `sync` of crates/wsl-dns/src/resolver.rs, which writes the files of the domains.
use wslvpn.Base.{
  ◌≡◌, ◌≢◌, refl, ap, subst, ◌∙◌, ◌⊎◌, inl, inr, false, some, List, [], ◌∷◌, ◌++◌, if◌then◌else◌,
  Bool-cases, Option-cases, All,
}
use wslvpn.Base.Text.{Text, text_eq, text_eq_iff}
use wslvpn.Base.TextMap.{get, remove, get-remove}
use wslvpn.Dns.Hosts.{Result, ok, err}
use wslvpn.Dns.Resolver.Foreign.{Found-cases, get-place}
use wslvpn.Dns.Resolver.{
  FileEntry, Directory, Disk, SyncError, SyncReport, is_ours, read, can_place, place, stale,
  inspect, write_domains, not_written,
}

-- The file of a domain has the wanted text, or it is a text of someone else.
abbrev pub IsServed : Text → Text → Directory → Type 0
IsServed body domain dir =
    (read domain dir ≡ some body)
    ⊎ ((text : Text) × (read domain dir ≡ some text) × (is_ours text ≡ false))

pub read-get :
    (name : Text) (entry : FileEntry) (dir : Directory)
    → get name dir ≡ some entry
    → read name dir ≡ entry.content
unfolding read
read-get name entry dir h = rw (h, read) refl

read-place :
    (j name body : Text) (dir : Directory)
    → read j (place name body dir) ≡ (if text_eq name j then some body else read j dir)
unfolding read
read-place j name body dir = elim (Bool-cases (text_eq name j)) [
  | inl e ↦ rw (get-place j name body dir, e, read) refl
  | inr e ↦ rw (get-place j name body dir, e, read) refl
]

pub read-remove :
    (j name : Text) (dir : Directory)
    → text_eq name j ≡ false
    → read j (remove name dir) ≡ read j dir
unfolding read
read-remove j name dir e = rw (get-remove j name dir, e, read) refl

IsServed-place :
    (body n domain : Text) (dir : Directory)
    → IsServed body n dir
    → IsServed body n (place domain body dir)
IsServed-place body n domain dir h = elim (Bool-cases (text_eq domain n)) [
  | inl e ↦ inl (read-place n domain body dir ∙ rw e refl)
  | inr e ↦
      let kept : read n (place domain body dir) ≡ read n dir =
        read-place n domain body dir ∙ rw e refl in
      rw kept h
]

place-IsServed :
    (body domain : Text) (dir : Directory) → IsServed body domain (place domain body dir)
place-IsServed body domain dir =
    inl (read-place domain domain body dir ∙ rw ((text_eq_iff domain domain).1 refl) refl)

inspect-IsServed :
    (body domain : Text) (dir : Directory)
    → inspect body domain dir ≢ stale
    → IsServed body domain dir
unfolding inspect
inspect-IsServed body domain dir h = elim (Option-cases (read domain dir)) [
  | inl e ↦ absurd (h (rw (e, inspect) refl))
  | inr (text, e) ↦ elim (Bool-cases (is_ours text)) [
    | inr o ↦ inr (text, e, o)
    | inl o ↦ elim (Bool-cases (text_eq text body)) [
      | inl t ↦ inl (e ∙ ap some ((text_eq_iff text body).0 t))
      | inr t ↦ absurd (h (rw (e, inspect) (rw (o, t) refl)))
    ]
  ]
]

-- What a call may leave: where it succeeds, the domains are served.
abbrev pub Serves : Text → List Text → Result SyncError SyncReport × Directory → Type 0
Serves body domains (ok report, dir) = All (λ domain. IsServed body domain dir) domains
Serves body domains (err e, dir) = Unit

module _ (disk : Disk) (body : Text) where
  write_domains-keeps :
      (n : Text) (domains : List Text) (report : SyncReport) (dir : Directory)
      → IsServed body n dir
      → IsServed body n (write_domains disk body domains report dir).1
  unfolding write_domains
  write_domains-keeps n [] report dir h = h
  write_domains-keeps n (domain ∷ rest) report dir h =
      elim (Found-cases (inspect body domain dir)) [
        | inl e ↦ rw (e, write_domains) (write_domains-keeps n rest _ dir h)
        | inr (inl e) ↦ rw (e, write_domains) (write_domains-keeps n rest _ dir h)
        | inr (inr e) ↦ elim (Bool-cases (can_place disk domain dir)) [
          | inr c ↦ rw (e, c, write_domains) h
          | inl c ↦
              rw (e, c, write_domains)
                (write_domains-keeps n rest _ _ (IsServed-place body n domain dir h))
        ]
      ]

  first_served :
      (domain : Text) (rest : List Text) (r : Result SyncError SyncReport × Directory)
      → IsServed body domain r.1
      → Serves body rest r
      → Serves body (domain ∷ rest) r
  first_served domain rest (ok report, dir) here h = (here, h)
  first_served domain rest (err e, dir) here h = tt

  pub write_domains-Serves :
      (domains : List Text) (report : SyncReport) (dir : Directory)
      → Serves body domains (write_domains disk body domains report dir)
  unfolding write_domains
  write_domains-Serves [] report dir = tt
  write_domains-Serves (domain ∷ rest) report dir =
      let onward = λ (report' : SyncReport) (dir' : Directory) (here : IsServed body domain dir').
        first_served domain rest (write_domains disk body rest report' dir')
          (write_domains-keeps domain rest report' dir' here)
          (write_domains-Serves rest report' dir') in
      elim (Found-cases (inspect body domain dir)) [
        | inl e ↦ subst (Serves body (domain ∷ rest)) (rw (e, write_domains) refl) (
            onward (record report { skipped = report.skipped ++ domain ∷ [] }) dir
              (inspect-IsServed body domain dir (λ s. cc (e, s))))
        | inr (inl e) ↦
            subst (Serves body (domain ∷ rest)) (rw (e, write_domains) refl)
              (onward report dir (inspect-IsServed body domain dir (λ s. cc (e, s))))
        | inr (inr e) ↦ elim (Bool-cases (can_place disk domain dir)) [
          | inr c ↦
              subst (Serves body (domain ∷ rest)) {x = (err (not_written domain), dir)}
                (rw (e, c, write_domains) refl) tt
          | inl c ↦ subst (Serves body (domain ∷ rest)) (rw (e, c, write_domains) refl) (
              onward (record report { written = report.written ++ domain ∷ [] })
                (place domain body dir) (place-IsServed body domain dir))
        ]
      ]
