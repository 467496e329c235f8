-- ===== src/Dns/Wire/Bytes.antt =====
-- Reading and writing big-endian numbers in a buffer: the helpers of crates/wsl-dns/src/wire.rs.
use wslvpn.Base.{
  ℕ, zero, suc, ◌+◌, ◌*◌, ◌/◌, ◌%◌, ◌^◌, Option, none, some, List, [], ◌∷◌, leb, if◌then◌else◌,
  length, get_elem?, take, drop,
}

infixl 5 ◌>>=◌
abbrev pub ◌>>=◌ : {A B : Type 0} → Option A → (A → Option B) → Option B
none >>= f = none
some a >>= f = f a

-- `u16::from_be_bytes([*buf.get(at)?, *buf.get(at + 1)?])`.
unfoldable pub u16_at : List ℕ → ℕ → Option ℕ
u16_at buf at = do hi ← get_elem? buf at; lo ← get_elem? buf (at + 1); some (hi * 256 + lo)

-- `buf.get(at..at + len)`.
unfoldable pub slice : List ℕ → ℕ → ℕ → Option (List ℕ)
slice buf at len = if leb (at + len) (length buf) then some (take len (drop at buf)) else none

-- `to_be_bytes` of a `u16` and of a `u32`.
abbrev pub u16_be : ℕ → List ℕ
u16_be n = n / 256 % 256 ∷ n % 256 ∷ []

abbrev pub u32_be : ℕ → List ℕ
u32_be n = n / 2 ^ 24 % 256 ∷ n / 2 ^ 16 % 256 ∷ n / 256 % 256 ∷ n % 256 ∷ []

abbrev pub zeros : ℕ → List ℕ
zeros zero = []
zeros (suc n) = 0 ∷ zeros n
