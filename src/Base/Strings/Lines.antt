-- ===== src/Base/Strings/Lines.antt =====
-- Lines that a program writes, one after the other, and `lines` and `split_whitespace` of them.
use Prim.Native.Nat.{ℕ, zero, suc, ◌+◌, ◌/◌, ◌%◌, ◌≤◌}
use mathlib.Core.Path.{◌≡◌, refl}
use mathlib.Core.Logic.{◌≢◌, inl, inr}
use mathlib.Core.Bool.{true}
use mathlib.Core.List.{[], ◌∷◌, ◌++◌}
use native.Mathlib.Omega.{arith}
use wslvpn.Base.Tests.{ltb, if◌then◌else◌, Bool-cases, ltb→lt}
use wslvpn.Base.Predicates.{All, All-mono}
use wslvpn.Base.Text.{Text}
use wslvpn.Base.Strings.{split, strip_cr, ended_lines, lines, cut_spaces, is_whitespace}
use wslvpn.Base.Strings.Plain.{split-cons, All-append, IsPlain}

-- `writeln!`, with what is written after it.
unfoldable pub writeln : Text → Text → Text
writeln line rest = line ++ (10 ∷ rest)

-- A text that stays on its line.
abbrev pub IsOneLine : Text → Type 0
IsOneLine = All (λ c. (c ≢ 10) × (c ≢ 13))

pub split-append_sep :
    (sep : ℕ) (part rest : Text)
    → All (λ c. c ≢ sep) part
    → split sep (part ++ (sep ∷ rest)) ≡ part ∷ split sep rest
unfolding split
split-append_sep sep [] rest h = ground arith
split-append_sep sep (c ∷ part) rest h =
    rw (split-append_sep sep part rest h.1) (ground (arith, h.0))

pub split-no_sep : (sep : ℕ) (part : Text) → All (λ c. c ≢ sep) part → split sep part ≡ part ∷ []
unfolding split
split-no_sep sep [] h = refl
split-no_sep sep (c ∷ part) h = rw (split-no_sep sep part h.1) (ground (arith, h.0))

strip_cr-IsOneLine : (line : Text) → IsOneLine line → strip_cr line ≡ line
unfolding strip_cr
strip_cr-IsOneLine [] h = refl
strip_cr-IsOneLine (c ∷ line) h = rw (strip_cr-IsOneLine line h.1) (ground (arith, h.0))

pub lines-nil : lines [] ≡ []
unfolding lines split ended_lines
lines-nil = refl

pub lines-writeln :
    (line rest : Text) → IsOneLine line → lines (writeln line rest) ≡ line ∷ lines rest
unfolding lines writeln ended_lines
lines-writeln line rest h =
    let (part, parts, same) = split-cons 10 rest in
    rw (split-append_sep 10 line rest (All-mono (λ c k. k.0) line h), same)
      (rw (strip_cr-IsOneLine line h) refl)

-- The words of a line.
pub cut_spaces-append :
    (part rest : Text) (c : ℕ)
    → All IsPlain part
    → is_whitespace c ≡ true
    → cut_spaces (part ++ (c ∷ rest)) ≡ part ∷ cut_spaces rest
cut_spaces-append [] rest c h w = rw w refl
cut_spaces-append (d ∷ part) rest c h w = rw (cut_spaces-append part rest c h.1 w, h.0) refl

pub cut_spaces-plain : (part : Text) → All IsPlain part → cut_spaces part ≡ part ∷ []
cut_spaces-plain [] h = refl
cut_spaces-plain (d ∷ part) h = rw (cut_spaces-plain part h.1, h.0) refl

-- The decimal digits of a number. A round of fuel divides by ten.
digits : ℕ → ℕ → Text
digits zero n = []
digits (suc fuel) n =
    let front = digits fuel (n / 10) in
    if ltb n 10 then (b'0' + n) ∷ [] else front ++ (b'0' + n % 10) ∷ []

-- `to_string` of an unsigned number.
unfoldable pub decimal : ℕ → Text
unfolding digits
decimal n = digits (suc n) n

abbrev pub IsDigit : ℕ → Type 0
IsDigit c = (b'0' ≤ c) × (c ≤ b'9')

digits-IsDigit : (fuel n : ℕ) → All IsDigit (digits fuel n)
unfolding digits
digits-IsDigit zero n = tt
digits-IsDigit (suc fuel) n = elim (Bool-cases (ltb n 10)) [
  | inl e ↦ rw e (omega (arith, ltb→lt n 10 e), tt)
  | inr e ↦
      rw e (
        All-append IsDigit (digits fuel (n / 10)) _ (digits-IsDigit fuel (n / 10))
          (omega arith, tt))
]

pub decimal-IsDigit : (n : ℕ) → All IsDigit (decimal n)
unfolding decimal
decimal-IsDigit n = digits-IsDigit (suc n) n
