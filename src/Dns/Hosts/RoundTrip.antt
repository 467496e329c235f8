-- ===== src/Dns/Hosts/RoundTrip.antt =====
-- crates/wsl-dns/src/hosts.rs: `parse` of what `render` writes. Of the text of an address the module
-- asks that it is a word, and that reading it gives the address back.
use wslvpn.Base.{
  ℕ, ◌+◌, ◌≡◌, ◌≢◌, refl, sym, ap, ◌∙◌, inl, inr, Bool, false, some, List, [], ◌∷◌, ◌++◌, arith,
  is_empty, All, All-mono, map,
}
use mathlib.Core.List.{append_assoc}
use wslvpn.Base.Text.{Text}
use wslvpn.Base.TextMap.{TextMap, Entries}
use wslvpn.Base.Net.{IpAddr}
use wslvpn.Base.Strings.{split, trim, trim_start, trim_end, is_whitespace, lines, split_whitespace}
use wslvpn.Base.Strings.Plain.{All-append, IsPlain, trim_end-plain}
use wslvpn.Base.Strings.Lines.{
  writeln, IsOneLine, split-no_sep, lines-nil, lines-writeln, cut_spaces-append, cut_spaces-plain,
}
use wslvpn.Dns.Hosts.{
  IpText, ok, Records, Entry, Overrides, star_dot, insert, insert_names, parse_fields, parse_line,
  parse_lines, no_overrides, parse, of_name, entries_of, entries, managed_line, render_entries,
  render,
}
use wslvpn.Dns.Hosts.Names.{
  IsHostName, IsCanonical, IsHostChar, IsHostName-chars, IsCanonical-normalise,
}
use wslvpn.Dns.Hosts.Tables.{IsWellFormed}
use wslvpn.Dns.Hosts.Rebuild.{insert_all, insert_all-entries}

abbrev IsWordChar : ℕ → Type 0
IsWordChar c = IsPlain c × (c ≢ b'#')

-- A text that stands as one field of a line.
abbrev pub IsWord : Text → Type 0
IsWord word = (word ≢ []) × All IsWordChar word

-- The text of an address is a word that reads as the address.
abbrev pub IsPrinted : IpText → IpAddr → Type 0
IsPrinted ips a = IsWord (ips.to_string a) × (ips.parse (ips.to_string a) ≡ some a)

host_char-IsWordChar : (c : ℕ) → IsHostChar c → IsWordChar c
host_char-IsWordChar c h = ground arith

IsHostName-IsWord : (host : Text) → IsHostName host → IsWord host
IsHostName-IsWord host h = (h.0, All-mono host_char-IsWordChar host (IsHostName-chars host h))

star_dot-IsWord : (suffix : Text) → IsHostName suffix → IsWord (star_dot ++ suffix)
star_dot-IsWord suffix h =
    ((λ e. cc), ((refl, ground arith), ((refl, ground arith), (IsHostName-IsWord suffix h).1)))

IsCanonical-IsWord : (name : Text) → IsCanonical name → IsWord name
IsCanonical-IsWord name (inl h) = IsHostName-IsWord name h
IsCanonical-IsWord name (inr (suffix, same, (h, dotted))) = rw same (star_dot-IsWord suffix h)

-- Two words on a line, a tab between them.
is_empty-append : (s t : Text) → is_empty t ≡ false → is_empty (s ++ t) ≡ false
is_empty-append [] t h = h
is_empty-append (c ∷ s) t h = refl

trim_end-append :
    (p : ℕ → Bool) (s t : Text)
    → is_empty t ≡ false
    → trim_end p t ≡ t
    → trim_end p (s ++ t) ≡ s ++ t
unfolding trim_end
trim_end-append p [] t h same = same
trim_end-append p (d ∷ s) t h same =
    rw (trim_end-append p s t h same) (ground (arith, is_empty-append s t h))

IsWord-filled : (word : Text) → IsWord word → is_empty word ≡ false
IsWord-filled [] h = absurd (h.0 refl)
IsWord-filled (c ∷ word) h = refl

two_words : Text → Text → Text
two_words first second = first ++ (9 ∷ second)

module _ (first second : Text) (h : IsWord first) (k : IsWord second) where
  two_words-chars :
      (P : ℕ → Type 0) → P 9 → ((c : ℕ) → IsWordChar c → P c) → All P (two_words first second)
  unfolding two_words
  two_words-chars P tab each =
      All-append P first (9 ∷ second) (All-mono each first h.1) (tab, All-mono each second k.1)

  two_words-IsOneLine : IsOneLine (two_words first second)
  two_words-IsOneLine =
      two_words-chars (λ c. (c ≢ 10) × (c ≢ 13)) (omega arith, omega arith) (λ c w. ground arith)

  split-two_words : split b'#' (two_words first second) ≡ two_words first second ∷ []
  split-two_words = split-no_sep b'#' _ (two_words-chars (λ c. c ≢ b'#') (omega arith) (λ c w. w.1))

  split_whitespace-two_words : split_whitespace (two_words first second) ≡ first ∷ (second ∷ [])
  unfolding two_words split_whitespace
  split_whitespace-two_words =
      rw
        (
          cut_spaces-append first second 9 (All-mono (λ c w. w.0) first h.1) refl,
          cut_spaces-plain second (All-mono (λ c w. w.0) second k.1),
        )
        (rw (IsWord-filled first h, IsWord-filled second k) refl)

trim-two_words :
    (first second : Text)
    → IsWord first
    → IsWord second
    → trim (two_words first second) ≡ two_words first second
unfolding trim trim_start two_words
trim-two_words [] second h k = absurd (h.0 refl)
trim-two_words (c ∷ first) second h k =
    let second_stays = trim_end-plain is_whitespace second (All-mono (λ d w. w.0) second k.1) in
    let filled = IsWord-filled second k in
    rw (h.1.0.0) (
      trim_end-append is_whitespace (c ∷ first) (9 ∷ second) refl
        (trim_end-append is_whitespace (9 ∷ []) second filled second_stays))

filled_two_words : (first second : Text) → IsWord first → is_empty (two_words first second) ≡ false
unfolding two_words
filled_two_words [] second h = refl
filled_two_words (c ∷ first) second h = refl

entry_line : IpText → Entry → Text
entry_line ips entry = two_words (ips.to_string entry.address) entry.name

IsWritten : IpText → Entry → Type 0
IsWritten ips entry = IsPrinted ips entry.address × IsCanonical entry.name

module _ (ips : IpText) where
  render_entries-writeln :
      (entry : Entry) (rest : List Entry)
      → render_entries ips (entry ∷ rest) ≡ writeln (entry_line ips entry) (render_entries ips rest)
  unfolding render_entries writeln entry_line two_words
  render_entries-writeln entry rest =
      sym
        (append_assoc (ips.to_string entry.address) (9 ∷ entry.name) (10 ∷ render_entries ips rest))

  lines-render_entries :
      (written : List Entry)
      → All (IsWritten ips) written
      → lines (render_entries ips written) ≡ map (entry_line ips) written
  unfolding render_entries IsWritten entry_line
  lines-render_entries [] h = lines-nil
  lines-render_entries (entry ∷ rest) h =
      ap lines (render_entries-writeln entry rest)
      ∙ lines-writeln (entry_line ips entry) (render_entries ips rest)
          (two_words-IsOneLine _ entry.name h.0.0.0 (IsCanonical-IsWord entry.name h.0.1))
      ∙ ap (◌∷◌ (entry_line ips entry)) (lines-render_entries rest h.1)

  parse_fields-entry :
      (line : ℕ) (entry : Entry) (table : Overrides)
      → IsWritten ips entry
      → parse_fields ips line (ips.to_string entry.address ∷ (entry.name ∷ [])) table
        ≡ ok (insert entry.address entry.name table)
  unfolding parse_fields insert_names IsWritten
  parse_fields-entry line entry table h = rw (h.0.1, IsCanonical-normalise entry.name h.1) refl

  parse_line-entry :
      (line : ℕ) (entry : Entry) (table : Overrides)
      → IsWritten ips entry
      → parse_line ips line (entry_line ips entry) table
        ≡ ok (insert entry.address entry.name table)
  unfolding parse_line IsWritten entry_line
  parse_line-entry line entry table h =
      let word = h.0.0 in
      let name = IsCanonical-IsWord entry.name h.1 in
      rw
        (
          split-two_words _ entry.name word name,
          trim-two_words _ entry.name word name,
          filled_two_words _ entry.name word,
          split_whitespace-two_words _ entry.name word name,
        )
        (parse_fields-entry line entry table h)

  parse_lines-entries :
      (written : List Entry) (line : ℕ) (table : Overrides)
      → All (IsWritten ips) written
      → parse_lines ips line (map (entry_line ips) written) table ≡ ok (insert_all table written)
  unfolding parse_lines insert_all
  parse_lines-entries [] line table h = refl
  parse_lines-entries (entry ∷ rest) line table h =
      rw (parse_line-entry line entry table h.0)
        (parse_lines-entries rest (line + 1) (insert entry.address entry.name table) h.1)

-- The line that `render` begins with is a comment.
managed_line-IsOneLine : IsOneLine managed_line
unfolding managed_line
managed_line-IsOneLine = omega arith

parse_line-managed_line :
    (ips : IpText) (line : ℕ) (table : Overrides)
    → parse_line ips line managed_line table ≡ ok table
unfolding parse_line managed_line split trim trim_start trim_end
parse_line-managed_line ips line table = refl

-- The entries of a well-formed table carry canonical names.
of_name-IsWritten :
    (ips : IpText) (name : Text) (addresses : List IpAddr)
    → IsCanonical name
    → All (IsPrinted ips) addresses
    → All (IsWritten ips) (of_name name addresses)
unfolding IsWritten
of_name-IsWritten ips name [] c h = tt
of_name-IsWritten ips name (a ∷ addresses) c h =
    ((h.0, c), of_name-IsWritten ips name addresses c h.1)

abbrev pub AllPrinted : IpText → TextMap Records → Type 0
AllPrinted ips m = Entries (λ _ records. All (IsPrinted ips) records.addresses) m

entries_of-IsWritten :
    (ips : IpText) (name_of : Text → Text) (m : TextMap Records)
    → Entries (λ key _. IsCanonical (name_of key)) m
    → AllPrinted ips m
    → All (IsWritten ips) (entries_of name_of m)
unfolding entries_of
entries_of-IsWritten ips name_of [] c h = tt
entries_of-IsWritten ips name_of ((key, records) ∷ rest) c h =
    All-append (IsWritten ips) (of_name (name_of key) records.addresses) _
      (of_name-IsWritten ips (name_of key) records.addresses c.0 h.0)
      (entries_of-IsWritten ips name_of rest c.1 h.1)

entries-IsWritten :
    (ips : IpText) (table : Overrides)
    → IsWellFormed table
    → AllPrinted ips table.exact
    → AllPrinted ips table.wildcard
    → All (IsWritten ips) (entries table)
unfolding entries
entries-IsWritten ips table w exact wild =
    All-append (IsWritten ips) _ _
      (entries_of-IsWritten ips (λ name. name) table.exact
        (All-mono (λ (k, r) h. inl h.0) table.exact w.exact_names.0) exact)
      (entries_of-IsWritten ips (λ suffix. star_dot ++ suffix) table.wildcard
        (All-mono (λ (k, r) h. inr (k, refl, h.0)) table.wildcard w.suffixes.0) wild)

-- Reading what `render` writes for a well-formed table gives the table back, if every address in
-- it prints as a word, without white space and `#`, that reads as the address again.
pub parse-render :
    (ips : IpText) (table : Overrides)
    → IsWellFormed table
    → AllPrinted ips table.exact
    → AllPrinted ips table.wildcard
    → parse ips (render ips table) ≡ ok table
unfolding parse render parse_lines writeln
parse-render ips table w exact wild =
    let written = entries-IsWritten ips table w exact wild in
    let text_lines =
      lines-writeln managed_line (render_entries ips (entries table)) managed_line-IsOneLine
      ∙ ap (◌∷◌ managed_line) (lines-render_entries ips (entries table) written) in
    rw (text_lines, parse_line-managed_line ips 1 no_overrides)
      (parse_lines-entries ips (entries table) 2 no_overrides written
        ∙ ap (λ (t : Overrides). ok t) (insert_all-entries table w))
