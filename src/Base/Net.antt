-- ===== src/Base/Net.antt =====
-- Addresses of the Rust standard library, and the values of PostgreSQL's type `inet`.
use Prim.Native.Nat.{ℕ}
use mathlib.Core.Bool.{Bool, true, false}
use mathlib.Core.List.{List}
use mathlib.Core.Option.{Option}
use mathlib.Core.Path.{◌≡◌}
use mathlib.Core.Logic.{◌↔◌}
use native.Mathlib.Omega.{arith}
use wslvpn.Base.Text.{Text, text_eq, text_eq_iff}

-- The octets of an address: four of them, or sixteen.
pub data IpAddr : Type 0 where
  v4 : List ℕ → IpAddr
  v6 : List ℕ → IpAddr

unfoldable pub ip_eq : IpAddr → IpAddr → Bool
ip_eq (v4 a) (v4 b) = text_eq a b
ip_eq (v4 a) (v6 b) = false
ip_eq (v6 a) (v4 b) = false
ip_eq (v6 a) (v6 b) = text_eq a b

pub ip_eq_iff : (a b : IpAddr) → (ip_eq a b ≡ true) ↔ (a ≡ b)
unfolding ip_eq
ip_eq_iff (v4 a) (v4 b) = ground (arith, text_eq_iff a b)
ip_eq_iff (v4 a) (v6 b) = ground arith
ip_eq_iff (v6 a) (v4 b) = ground arith
ip_eq_iff (v6 a) (v6 b) = ground (arith, text_eq_iff a b)

-- An address with the length of a prefix: a row's `inet`, and an `IpNetwork`.
pub record Inet : Type 0 where
  pub ip : IpAddr
  pub prefix : ℕ

-- What the services use of the crate `ipnetwork` and of the display of addresses.
pub record Networks : Type 0 where
  pub hosts : Inet → List IpAddr
  pub new : IpAddr → ℕ → Option Inet
  pub parse : Text → Option Inet
  pub to_string : Inet → Text
  pub addr_text : IpAddr → Text
  pub error_text : Text
