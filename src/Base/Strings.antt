-- ===== src/Base/Strings.antt =====
-- What the Rust standard library does with a `str`, on lists of code points.
pub mod Plain
pub mod Lines
use Prim.Native.Nat.{ℕ, zero, suc, ◌+◌, ◌-◌, ◌*◌, ◌/◌, ◌%◌}
use mathlib.Core.Bool.{Bool, true, false, not, ◌&&◌, ◌||◌}
use mathlib.Core.List.{List, [], ◌∷◌, ◌++◌}
use mathlib.Core.Option.{Option, none, some}
use wslvpn.Base.Tests.{ltb, leb, ◌==◌, if◌then◌else◌}
use wslvpn.Base.Lists.{length, drop, is_empty, filter}
use wslvpn.Base.Text.{Text}

abbrev pub cons_head : ℕ → List Text → List Text
cons_head c [] = (c ∷ []) ∷ []
cons_head c (part ∷ parts) = (c ∷ part) ∷ parts

-- `split(sep)` for a character `sep`: at least one part, and empty parts are kept.
unfoldable pub split : ℕ → Text → List Text
split sep [] = [] ∷ []
split sep (c ∷ s) = let parts = split sep s in if c == sep then [] ∷ parts else cons_head c parts

-- `join(sep)` for a character `sep`.
unfoldable pub join : ℕ → List Text → Text
join sep [] = []
join sep (part ∷ []) = part
join sep (part ∷ (next ∷ parts)) = part ++ sep ∷ join sep (next ∷ parts)

-- `trim_end_matches` for a test on characters.
unfoldable pub trim_end : (ℕ → Bool) → Text → Text
trim_end p [] = []
trim_end p (c ∷ s) = let rest = trim_end p s in if p c && is_empty rest then [] else c ∷ rest

-- The UTF-8 encoding of a code point, and of a text.
unfoldable pub encode_char : ℕ → List ℕ
encode_char c =
    if ltb c 0x80
    then c ∷ []
    else if ltb c 0x800
    then (0xc0 + c / 64) ∷ (0x80 + c % 64) ∷ []
    else if ltb c 0x1_0000
    then (0xe0 + c / 4096) ∷ (0x80 + c / 64 % 64) ∷ (0x80 + c % 64) ∷ []
    else (0xf0 + c / 262144) ∷ (0x80 + c / 4096 % 64) ∷ (0x80 + c / 64 % 64) ∷ (0x80 + c % 64) ∷ []

unfoldable pub as_bytes : Text → List ℕ
unfolding encode_char
as_bytes [] = []
as_bytes (c ∷ s) = encode_char c ++ as_bytes s

abbrev within : ℕ → ℕ → ℕ → Bool
within lo hi b = leb lo b && leb b hi

abbrev is_continuation : ℕ → Bool
is_continuation = within 0x80 0xbf

abbrev replacement : ℕ
replacement = 0xfffd

-- One character of a lossy decoding, and how many bytes after the first one it takes. A byte that
-- starts no character, and the longest start of one that breaks off, become one U+FFFD.
decode_two : ℕ → List ℕ → ℕ × ℕ
decode_two b [] = (replacement, 0)
decode_two b (c ∷ _) =
    if is_continuation c then ((b - 0xc0) * 64 + (c - 0x80), 1) else (replacement, 0)

decode_three : ℕ → ℕ → ℕ → List ℕ → ℕ × ℕ
decode_three lo hi b [] = (replacement, 0)
decode_three lo hi b (c ∷ []) = if within lo hi c then (replacement, 1) else (replacement, 0)
decode_three lo hi b (c ∷ (d ∷ _)) =
    if not (within lo hi c)
    then (replacement, 0)
    else if is_continuation d
    then ((b - 0xe0) * 4096 + (c - 0x80) * 64 + (d - 0x80), 2)
    else (replacement, 1)

decode_four : ℕ → ℕ → ℕ → List ℕ → ℕ × ℕ
decode_four lo hi b [] = (replacement, 0)
decode_four lo hi b (c ∷ []) = if within lo hi c then (replacement, 1) else (replacement, 0)
decode_four lo hi b (c ∷ (d ∷ [])) =
    if not (within lo hi c)
    then (replacement, 0)
    else if is_continuation d
    then (replacement, 2)
    else (replacement, 1)
decode_four lo hi b (c ∷ (d ∷ (e ∷ _))) =
    if not (within lo hi c)
    then (replacement, 0)
    else if not (is_continuation d)
    then (replacement, 1)
    else if is_continuation e
    then ((b - 0xf0) * 262144 + (c - 0x80) * 4096 + (d - 0x80) * 64 + (e - 0x80), 3)
    else (replacement, 2)

decode_char : ℕ → List ℕ → ℕ × ℕ
unfolding decode_two decode_three decode_four
decode_char b rest =
    if ltb b 0x80
    then (b, 0)
    else if within 0xc2 0xdf b
    then decode_two b rest
    else if b == 0xe0
    then decode_three 0xa0 0xbf b rest
    else if b == 0xed
    then decode_three 0x80 0x9f b rest
    else if within 0xe1 0xef b
    then decode_three 0x80 0xbf b rest
    else if b == 0xf0
    then decode_four 0x90 0xbf b rest
    else if within 0xf1 0xf3 b
    then decode_four 0x80 0xbf b rest
    else if b == 0xf4
    then decode_four 0x80 0x8f b rest
    else (replacement, 0)

-- The fuel counts bytes: every character takes one at least.
lossy : ℕ → List ℕ → Text
unfolding decode_char
lossy zero bytes = []
lossy (suc fuel) [] = []
lossy (suc fuel) (b ∷ rest) =
    let (c, taken) = decode_char b rest in c ∷ lossy fuel (drop taken rest)

-- `String::from_utf8_lossy`.
unfoldable pub from_utf8_lossy : List ℕ → Text
unfolding lossy
from_utf8_lossy bytes = lossy (length bytes) bytes

-- `to_ascii_lowercase`.
abbrev pub to_lower : ℕ → ℕ
to_lower c = if within b'A' b'Z' c then c + 32 else c

unfoldable pub to_ascii_lowercase : Text → Text
to_ascii_lowercase [] = []
to_ascii_lowercase (c ∷ s) = to_lower c ∷ to_ascii_lowercase s

-- `char::is_whitespace`.
abbrev pub is_whitespace : ℕ → Bool
is_whitespace c =
    within 9 13 c
    || c == 0x20
    || c == 0x85
    || c == 0xa0
    || c == 0x1680
    || within 0x2000 0x200a c
    || within 0x2028 0x2029 c
    || c == 0x202f
    || c == 0x205f
    || c == 0x3000

unfoldable pub trim_start : Text → Text
trim_start [] = []
trim_start (c ∷ s) = let rest = trim_start s in if is_whitespace c then rest else c ∷ s

unfoldable pub trim : Text → Text
trim s = trim_end is_whitespace (trim_start s)

-- `lines()`: the ends of lines are LF or CR LF, and the last line may lack its end.
unfoldable pub strip_cr : Text → Text
strip_cr [] = []
strip_cr (c ∷ s) = let rest = strip_cr s in if c == 13 && is_empty s then [] else c ∷ rest

unfoldable pub ended_lines : List Text → List Text
ended_lines [] = []
ended_lines (line ∷ []) = if is_empty line then [] else line ∷ []
ended_lines (line ∷ (next ∷ rest)) = strip_cr line ∷ ended_lines (next ∷ rest)

unfoldable pub lines : Text → List Text
lines s = ended_lines (split 10 s)

-- `split_once(sep)`: around the first `sep`.
unfoldable pub split_once : ℕ → Text → Option (Text × Text)
split_once sep [] = none
split_once sep (c ∷ s) = elim (c == sep) [
  | true ↦ some ([], s)
  | false ↦ elim (split_once sep s) [
    | none ↦ none
    | some (before, after) ↦ some (c ∷ before, after)
  ]
]

-- `strip_prefix`.
unfoldable pub strip_prefix : Text → Text → Option Text
strip_prefix [] s = some s
strip_prefix (p ∷ prefix) [] = none
strip_prefix (p ∷ prefix) (c ∷ s) =
    let rest = strip_prefix prefix s in if p == c then rest else none

-- `split_whitespace`: the parts between white space that are not empty.
abbrev pub cut_spaces : Text → List Text
cut_spaces [] = [] ∷ []
cut_spaces (c ∷ s) =
    let parts = cut_spaces s in if is_whitespace c then [] ∷ parts else cons_head c parts

unfoldable pub split_whitespace : Text → List Text
split_whitespace s = filter (λ part. not (is_empty part)) (cut_spaces s)
