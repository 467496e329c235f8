-- ===== src/Base/Int.antt =====
-- Signed integers over the native numbers, under the library's names.
use Prim.Native.Nat.{ℕ, ◌+◌, ◌-◌}
use mathlib.Core.Bool.{Bool, true, false}
use wslvpn.Base.Tests.{ltb, if◌then◌else◌}

-- `negsuc n` is -(n + 1).
pub data ℤ : Type 0 where
  pos : ℕ → ℤ
  negsuc : ℕ → ℤ

abbrev pub pos_minus : ℕ → ℕ → ℤ
pos_minus a b = if ltb a b then negsuc (b - a - 1) else pos (a - b)

infixl 65 ◌+ℤ◌
abbrev pub ◌+ℤ◌ : ℤ → ℤ → ℤ
pos a +ℤ pos b = pos (a + b)
pos a +ℤ negsuc b = pos_minus a (b + 1)
negsuc a +ℤ pos b = pos_minus b (a + 1)
negsuc a +ℤ negsuc b = negsuc (a + b + 1)

-- Whether one integer is less than another.
abbrev pub earlier : ℤ → ℤ → Bool
earlier (pos a) (pos b) = ltb a b
earlier (pos a) (negsuc b) = false
earlier (negsuc a) (pos b) = true
earlier (negsuc a) (negsuc b) = ltb b a
