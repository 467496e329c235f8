-- ===== src/Base/Sorting.antt =====
-- `sort` and `dedup` of lists of strings.
use mathlib.Core.Bool.{Bool, true, false, ◌&&◌}
use mathlib.Core.List.{List, [], ◌∷◌}
use wslvpn.Base.Tests.{ltb, ◌==◌, if◌then◌else◌}
use wslvpn.Base.Text.{Text, text_eq}

-- The order of strings: that of their code points.
unfoldable pub text_leb : Text → Text → Bool
text_leb [] t = true
text_leb (a ∷ s) [] = false
text_leb (a ∷ s) (b ∷ t) = if ltb a b then true else a == b && text_leb s t

unfoldable pub insert_text : Text → List Text → List Text
insert_text s [] = s ∷ []
insert_text s (t ∷ ts) =
    let rest = insert_text s ts in if text_leb s t then s ∷ (t ∷ ts) else t ∷ rest

unfoldable pub sort : List Text → List Text
sort [] = []
sort (t ∷ ts) = insert_text t (sort ts)

-- `dedup`: of equal neighbours, one stays.
unfoldable pub dedup : List Text → List Text
dedup [] = []
dedup (t ∷ []) = t ∷ []
dedup (t ∷ (u ∷ ts)) = let rest = dedup (u ∷ ts) in if text_eq t u then rest else t ∷ rest
