-- ===== src/Dns/Wire/Bits.antt =====
-- The masks of crates/wsl-dns/src/wire.rs as arithmetic, checked by evaluation.
use wslvpn.Base.{
  ℕ, zero, suc, ◌+◌, ◌*◌, ◌/◌, ◌%◌, ◌^◌, ◌<◌, bit_and, bit_or, ◌≡◌, refl, ◌↔◌, ◌⊎◌, inl, inr, Bool,
  true, false, not, ◌&&◌, arith, ltb, ◌==◌, if◌then◌else◌, ==_iff,
}
use wslvpn.Dns.Wire.{reply_flags}

-- Whether a test passes for every number under a limit.
passes : (ℕ → Bool) → ℕ → Bool
passes test zero = true
passes test (suc limit) = if test limit then passes test limit else false

passes_at : (test : ℕ → Bool) (limit x : ℕ) → x < limit → passes test limit ≡ true → test x ≡ true
unfolding passes
passes_at test zero x small all = absurd (omega arith)
passes_at test (suc limit) x small all = ground (arith, passes_at test limit x)

-- `len & 0xc0 != 0`: the two top bits.
label_bits_table :
    passes (λ b. if ltb b 64 then bit_and b 0xc0 == 0 else not (bit_and b 0xc0 == 0)) 256 ≡ true
unfolding passes
label_bits_table = refl

-- What is left of the flags of a query.
query_flags_table :
    passes (λ f. bit_and f 0x7900 == f / 2048 % 16 * 2048 + f / 256 % 2 * 256) 65536 ≡ true
unfolding passes
query_flags_table = refl

pub query_flags : (f : ℕ) → f < 65536 → bit_and f 0x7900 ≡ f / 2048 % 16 * 2048 + f / 256 % 2 * 256
query_flags f h = (==_iff _ _).0 (passes_at _ 65536 f h query_flags_table)

pub label_bits : (b : ℕ) → b < 256 → (bit_and b 0xc0 ≡ 0) ↔ (b < 64)
label_bits b h = ground (arith, passes_at _ 256 b h label_bits_table)

standard_table : passes (λ o. bit_and o 0x0f == o % 16) 32 ≡ true
unfolding passes
standard_table = refl

-- A standard query keeps at most the bit RD.
pub query_flags_cases :
    (f : ℕ)
    → f < 65536
    → bit_and (f / 2 ^ 11) 0x0f ≡ 0
    → (bit_and f 0x7900 ≡ 0) ⊎ (bit_and f 0x7900 ≡ 256)
query_flags_cases f h standard = ground (
  arith,
  query_flags f h,
  (==_iff _ _).0 (passes_at _ 32 (f / 2 ^ 11) (omega arith) standard_table),
)

-- The flags of a reply can be read back.
abbrev pub FlagsRead : ℕ → ℕ → Bool → Type 0
FlagsRead flags rcode authoritative =
    let f = reply_flags flags rcode authoritative in
    (f < 65536)
    × (not (bit_and f 0x8000 == 0) ≡ true)
    × (bit_and f 0x000f ≡ rcode)
    × (not (bit_and f 0x0400 == 0) ≡ authoritative)

flags_read_test : ℕ → Bool → ℕ → Bool
flags_read_test flags authoritative rcode =
    let f = reply_flags flags rcode authoritative in
    ltb f 65536
    && not (bit_and f 0x8000 == 0)
    && bit_and f 0x000f == rcode
    && (if authoritative then not (bit_and f 0x0400 == 0) else bit_and f 0x0400 == 0)

FlagsRead-sound :
    (flags rcode : ℕ) (authoritative : Bool)
    → flags_read_test flags authoritative rcode ≡ true
    → FlagsRead flags rcode authoritative
unfolding flags_read_test
FlagsRead-sound flags rcode authoritative h = ground arith

flags_read_tables :
    (passes (flags_read_test 0 true) 16 ≡ true)
    × (passes (flags_read_test 0 false) 16 ≡ true)
    × (passes (flags_read_test 256 true) 16 ≡ true)
    × (passes (flags_read_test 256 false) 16 ≡ true)
unfolding passes flags_read_test reply_flags
flags_read_tables = (refl, refl, refl, refl)

pub reply_flags-FlagsRead :
    (flags rcode : ℕ) (authoritative : Bool)
    → (flags ≡ 0) ⊎ (flags ≡ 256)
    → rcode < 16
    → FlagsRead flags rcode authoritative
reply_flags-FlagsRead flags rcode true (inl e) h =
    FlagsRead-sound flags rcode true (rw e (passes_at _ 16 rcode h flags_read_tables.0))
reply_flags-FlagsRead flags rcode false (inl e) h =
    FlagsRead-sound flags rcode false (rw e (passes_at _ 16 rcode h flags_read_tables.1))
reply_flags-FlagsRead flags rcode true (inr e) h =
    FlagsRead-sound flags rcode true (rw e (passes_at _ 16 rcode h flags_read_tables.2))
reply_flags-FlagsRead flags rcode false (inr e) h =
    FlagsRead-sound flags rcode false (rw e (passes_at _ 16 rcode h flags_read_tables.3))

error_flags_test : ℕ → Bool
error_flags_test rcode =
    let f = bit_or 0x8080 rcode in
    ltb f 65536 && not (bit_and f 0x8000 == 0) && bit_and f 0x000f == rcode && bit_and f 0x0400 == 0

error_flags_table : passes error_flags_test 16 ≡ true
unfolding passes error_flags_test
error_flags_table = refl

pub error_flags_read :
    (rcode : ℕ)
    → rcode < 16
    → let f = bit_or 0x8080 rcode in
      (f < 65536)
      × (not (bit_and f 0x8000 == 0) ≡ true)
      × (bit_and f 0x000f ≡ rcode)
      × (not (bit_and f 0x0400 == 0) ≡ false)
unfolding error_flags_test
error_flags_read rcode h = ground (arith, passes_at error_flags_test 16 rcode h error_flags_table)
