-- ===== src/Base/Text.antt =====
-- Text as the list of its code points. A Rust `str` is the UTF-8 encoding of such a list.
use Prim.Native.Char.{code}
use Prim.Native.String.{String}
use Prim.Native.Nat.{ℕ}
use mathlib.Core.Path.{◌≡◌, refl}
use mathlib.Core.Logic.{◌↔◌}
use mathlib.Core.Bool.{Bool, true, false, ◌&&◌}
use mathlib.Core.List.{List, [], ◌∷◌}
use native.Mathlib.Omega.{arith}
use wslvpn.Base.Tests.{◌==◌}
use wslvpn.Base.Predicates.{Any, any_iff}
use wslvpn.Base.Lists.{any}

abbrev pub Text : Type 0
Text = List ℕ

-- The code points of a literal.
abbrev pub codes : String → Text
codes String.[] = []
codes (String.◌∷◌ c s) = code c ∷ codes s

unfoldable pub text_eq : Text → Text → Bool
text_eq [] [] = true
text_eq [] (_ ∷ _) = false
text_eq (_ ∷ _) [] = false
text_eq (a ∷ s) (b ∷ t) = a == b && text_eq s t

pub text_eq_iff : (s t : Text) → (text_eq s t ≡ true) ↔ (s ≡ t)
unfolding text_eq
text_eq_iff [] [] = (λ _. refl, λ _. refl)
text_eq_iff [] (b ∷ t) = (λ h. cc, λ h. cc)
text_eq_iff (a ∷ s) [] = (λ h. cc, λ h. cc)
text_eq_iff (a ∷ s) (b ∷ t) = ground (arith, text_eq_iff s t)

-- `iter().any(|t| t == s)`.
abbrev pub has_text : Text → List Text → Bool
has_text s = any (λ t. text_eq t s)

pub has_text_iff : (s : Text) (ts : List Text) → (has_text s ts ≡ true) ↔ Any (λ t. t ≡ s) ts
has_text_iff s ts = any_iff _ (λ t. text_eq_iff t s) ts
