-- ===== src/Dns/Wire/Steps.antt =====
-- Inversion of the chains of fallible steps of crates/wsl-dns/src/wire.rs.
use wslvpn.Base.{◌≡◌, refl, Bool, true, false, Option, none, some}
use wslvpn.Dns.Wire.{Result, ok, err, panic, stuck, ParseError, ◌>>=◌, or_err, or_panic, refuse_if}

-- A chain that succeeds: its first step does, with a value on which the rest does.
pub ok_parts :
    {A B : Type 0} (step : Result A) (next : A → Result B) {answer : B}
    → step >>= next ≡ ok answer
    → (value : A) × (step ≡ ok value) × (next value ≡ ok answer)
ok_parts panic next h = cc
ok_parts stuck next h = cc
ok_parts (err e) next h = cc
ok_parts (ok value) next h = (value, refl, h)

pub or_err-ok :
    {A : Type 0} (o : Option A) (e : ParseError) {a : A} → or_err o e ≡ ok a → o ≡ some a
or_err-ok none e h = cc
or_err-ok (some a) e h = cc

pub or_panic-ok : {A : Type 0} (o : Option A) {a : A} → or_panic o ≡ ok a → o ≡ some a
or_panic-ok none h = cc
or_panic-ok (some a) h = cc

pub refuse_if-ok : (b : Bool) (e : ParseError) {u : Unit {0}} → refuse_if b e ≡ ok u → b ≡ false
refuse_if-ok true e h = cc
refuse_if-ok false e h = refl
