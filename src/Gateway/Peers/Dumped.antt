-- ===== src/Gateway/Peers/Dumped.antt =====
-- What `wg show <interface> dump` prints, and that `parse_wg_dump` of crates/wsl-gateway/src/wg.rs reads the
-- peers out of it.
use wslvpn.Base.{
  ℕ, ◌≡◌, ◌≢◌, refl, sym, ap, ◌∙◌, inl, inr, false, not, some, List, [], ◌∷◌, ◌++◌, map, arith,
  Bool-cases, filter, is_empty, All, All-mono,
}
use wslvpn.Base.Text.{Text, codes, text_eq, text_eq_iff}
use wslvpn.Base.Strings.{split, join, trim, lines}
use wslvpn.Base.Strings.Plain.{All-append, IsPlain, trim-plain}
use wslvpn.Base.Strings.Lines.{
  writeln, IsOneLine, lines-nil, lines-writeln, split-append_sep, split-no_sep,
}
use wslvpn.Gateway.Peers.{LivePeer}
use wslvpn.Gateway.Peers.Dump.{dump_allowed_ips, dump_fields, dump_peers, parse_wg_dump}

-- A peer as it is printed: with its preshared key and its endpoint, which stand before its addresses, and
-- with what stands behind them.
pub record Printed : Type 0 where
  pub peer : LivePeer
  pub preshared : Text
  pub endpoint : Text
  pub behind : Text

-- The addresses of a peer, with commas between them, or `(none)`.
abbrev pub addresses_text : List Text → Text
addresses_text [] = codes "(none)"
addresses_text (ip ∷ ips) = join b',' (ip ∷ ips)

-- The fields of a line, with tabs between them.
abbrev pub peer_line : Printed → Text
peer_line p =
    p.peer.public_key
    ++ (9
        ∷ (p.preshared
            ++ (9 ∷ (p.endpoint ++ (9 ∷ (addresses_text p.peer.allowed_ips ++ (9 ∷ p.behind)))))))

abbrev pub peer_lines : List Printed → Text
peer_lines [] = []
peer_lines (p ∷ peers) = writeln (peer_line p) (peer_lines peers)

-- The line of the interface, then one line for each peer.
abbrev pub dump_text : Text → List Printed → Text
dump_text interface peers = writeln interface (peer_lines peers)

-- A text that stays in its field.
abbrev pub IsField : Text → Type 0
IsField = All (λ c. (c ≢ 9) × (c ≢ 10) × (c ≢ 13))

-- An address: a word without a comma.
abbrev pub IsAddress : Text → Type 0
IsAddress ip = (ip ≢ []) × All (λ c. IsPlain c × (c ≢ b',')) ip

pub record IsPrinted (p : Printed) : Type 0 where
  pub has_key : p.peer.public_key ≢ []
  pub key : IsField p.peer.public_key
  pub shared : IsField p.preshared
  pub reached : IsField p.endpoint
  pub addresses : All IsAddress p.peer.allowed_ips
  pub no_word_none : p.peer.allowed_ips ≢ codes "(none)" ∷ []
  pub rest : IsOneLine p.behind

split-join :
    (sep : ℕ) (part : Text) (parts : List Text)
    → All (All (λ c. c ≢ sep)) (part ∷ parts)
    → split sep (join sep (part ∷ parts)) ≡ part ∷ parts
unfolding join
split-join sep part [] h = split-no_sep sep part h.0
split-join sep part (next ∷ parts) h =
    split-append_sep sep part (join sep (next ∷ parts)) h.0
    ∙ ap (◌∷◌ part) (split-join sep next parts h.1)

trimmed : (ips : List Text) → All IsAddress ips → map trim ips ≡ ips
trimmed [] h = refl
trimmed (ip ∷ ips) h =
    rw (trim-plain ip (All-mono (λ c k. k.0) ip h.0.1)) (ap (◌∷◌ ip) (trimmed ips h.1))

nothing_dropped : (ips : List Text) → All IsAddress ips → filter (λ ip. not (is_empty ip)) ips ≡ ips
nothing_dropped [] h = refl
nothing_dropped ([] ∷ ips) h = absurd (h.0.0 refl)
nothing_dropped ((c ∷ ip) ∷ ips) h = ap (◌∷◌ (c ∷ ip)) (nothing_dropped ips h.1)

joined-split :
    (ip : Text) (ips : List Text)
    → All IsAddress (ip ∷ ips)
    → split b',' (join b',' (ip ∷ ips)) ≡ ip ∷ ips
joined-split ip ips h =
    split-join b',' ip ips (All-mono (λ (x : Text) k. All-mono (λ c j. j.1) x k.1) (ip ∷ ips) h)

joined-ne-nil :
    (ip : Text) (ips : List Text)
    → All IsAddress (ip ∷ ips)
    → is_empty (join b',' (ip ∷ ips)) ≡ false
unfolding join
joined-ne-nil [] ips h = absurd (h.0.0 refl)
joined-ne-nil (c ∷ ip) [] h = refl
joined-ne-nil (c ∷ ip) (next ∷ ips) h = refl

joined-ne-none :
    (ip : Text) (ips : List Text)
    → All IsAddress (ip ∷ ips)
    → ip ∷ ips ≢ codes "(none)" ∷ []
    → text_eq (join b',' (ip ∷ ips)) (codes "(none)") ≡ false
unfolding split
joined-ne-none ip ips h other =
    elim (Bool-cases (text_eq (join b',' (ip ∷ ips)) (codes "(none)"))) [
      | inr e ↦ e
      | inl e ↦ absurd (
          other (
            sym (joined-split ip ips h)
            ∙ ap (split b',') ((text_eq_iff (join b',' (ip ∷ ips)) (codes "(none)")).0 e)))
    ]

addresses-read :
    (ips : List Text)
    → All IsAddress ips
    → ips ≢ codes "(none)" ∷ []
    → dump_allowed_ips (addresses_text ips) ≡ ips
unfolding dump_allowed_ips
addresses-read [] h other = rw ((text_eq_iff (codes "(none)") (codes "(none)")).1 refl) refl
addresses-read (ip ∷ ips) h other =
    rw (joined-ne-none ip ips h other, joined-ne-nil ip ips h, joined-split ip ips h)
      (ap (filter (λ x. not (is_empty x))) (trimmed (ip ∷ ips) h) ∙ nothing_dropped (ip ∷ ips) h)

-- The addresses stay in their field.
join-IsField :
    (ip : Text) (ips : List Text) → All IsAddress (ip ∷ ips) → IsField (join b',' (ip ∷ ips))
unfolding join
join-IsField ip [] h = All-mono (λ c k. ground (arith, k.0)) ip h.0.1
join-IsField ip (next ∷ ips) h =
    All-append (λ c. (c ≢ 9) × (c ≢ 10) × (c ≢ 13)) ip _
      (All-mono (λ c k. ground (arith, k.0)) ip h.0.1) (omega arith, join-IsField next ips h.1)

addresses_text-IsField : (ips : List Text) → All IsAddress ips → IsField (addresses_text ips)
addresses_text-IsField [] h = omega arith
addresses_text-IsField (ip ∷ ips) h = join-IsField ip ips h

in_field : (s : Text) → IsField s → All (λ c. c ≢ 9) s
in_field s h = All-mono (λ c k. k.0) s h

on_line : (s : Text) → IsField s → IsOneLine s
on_line s h = All-mono (λ c k. (k.1, k.2)) s h

IsOneLine-fields : (s t : Text) → IsField s → IsOneLine t → IsOneLine (s ++ (9 ∷ t))
IsOneLine-fields s t h k =
    All-append (λ c. (c ≢ 10) × (c ≢ 13)) s (9 ∷ t) (on_line s h) (omega arith, k)

peer_line-IsOneLine : (p : Printed) → IsPrinted p → IsOneLine (peer_line p)
peer_line-IsOneLine p h = IsOneLine-fields p.peer.public_key _ h.key (
    IsOneLine-fields p.preshared _ h.shared (
      IsOneLine-fields p.endpoint _ h.reached (
        IsOneLine-fields (addresses_text p.peer.allowed_ips) p.behind
          (addresses_text-IsField p.peer.allowed_ips h.addresses) h.rest)))

peer_line-split :
    (p : Printed)
    → IsPrinted p
    → split 9 (peer_line p)
      ≡ p.peer.public_key
        ∷ (p.preshared ∷ (p.endpoint ∷ (addresses_text p.peer.allowed_ips ∷ split 9 p.behind)))
peer_line-split p h =
    split-append_sep 9 p.peer.public_key _ (in_field _ h.key)
    ∙ ap (◌∷◌ p.peer.public_key) (
        split-append_sep 9 p.preshared _ (in_field _ h.shared)
        ∙ ap (◌∷◌ p.preshared) (
            split-append_sep 9 p.endpoint _ (in_field _ h.reached)
            ∙ ap (◌∷◌ p.endpoint) (
                split-append_sep 9 (addresses_text p.peer.allowed_ips) p.behind
                  (in_field _ (addresses_text-IsField p.peer.allowed_ips h.addresses)))))

peer_line-read : (p : Printed) → IsPrinted p → dump_fields (split 9 (peer_line p)) ≡ some p.peer
unfolding dump_fields
peer_line-read p h =
    let keyed : is_empty p.peer.public_key ≡ false = filled p.peer.public_key h.has_key in
    let read = addresses-read p.peer.allowed_ips h.addresses h.no_word_none in
    ap dump_fields (peer_line-split p h) ∙ simp (keyed, read)
  where
    filled : (s : Text) → s ≢ [] → is_empty s ≡ false
    filled [] ne = absurd (ne refl)
    filled (c ∷ s) ne = refl

lines-peer_lines :
    (peers : List Printed) → All IsPrinted peers → lines (peer_lines peers) ≡ map peer_line peers
lines-peer_lines [] h = lines-nil
lines-peer_lines (p ∷ peers) h =
    lines-writeln (peer_line p) (peer_lines peers) (peer_line-IsOneLine p h.0)
    ∙ ap (◌∷◌ (peer_line p)) (lines-peer_lines peers h.1)

dump_peers-read :
    (peers : List Printed)
    → All IsPrinted peers
    → dump_peers (map peer_line peers) ≡ map (λ p. p.peer) peers
unfolding dump_peers
dump_peers-read [] h = refl
dump_peers-read (p ∷ peers) h =
    rw (peer_line-read p h.0, dump_peers) (ap (◌∷◌ p.peer) (dump_peers-read peers h.1))

-- Reading what `wg` prints gives the peers back, all of them, in order and with their addresses: the line of
-- the interface is no peer, whatever is in it, the preshared key and the endpoint of a peer and what
-- stands behind its addresses are passed over, and `(none)` is no address. A key is not empty, the first
-- three fields have no tab and no end of line, the rest of a line has no end of line, an address is a word
-- without a comma, and no peer has the word `(none)` for its only address.
pub parse_wg_dump-dump_text :
    (interface : Text) (peers : List Printed)
    → IsOneLine interface
    → All IsPrinted peers
    → parse_wg_dump (dump_text interface peers) ≡ map (λ p. p.peer) peers
unfolding parse_wg_dump
parse_wg_dump-dump_text interface peers i h =
    rw (lines-writeln interface (peer_lines peers) i, lines-peer_lines peers h)
      (dump_peers-read peers h)
