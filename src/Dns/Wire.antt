-- ===== src/Dns/Wire.antt =====
-- crates/wsl-dns/src/wire.rs. A byte is a number below 256, a buffer a list of bytes, and a name the
-- list of its code points. Reads are by index, as in the source; a read past the end is `none`.
pub mod Bits
pub mod Bytes
pub mod Response
pub mod Reading
pub mod Labels
pub mod LabelsWritten
pub mod Query
pub mod Steps
pub mod Skipping
pub mod Replies
pub mod Answers
mod Runs
use wslvpn.Base.{
  ℕ, zero, suc, ◌+◌, ◌-◌, ◌/◌, ◌%◌, ◌^◌, bit_and, bit_or, min, Bool, true, false, not, Option, none,
  some, List, [], ◌∷◌, ◌++◌, ltb, ◌==◌, if◌then◌else◌, length, get_elem?, take, is_empty, filter,
}
use wslvpn.Base.Text.{Text}
pub use wslvpn.Base.Net.{IpAddr, v4, v6}
use wslvpn.Base.Strings.{split, join, trim_end, as_bytes, from_utf8_lossy}
use wslvpn.Dns.Wire.Bytes.{u16_at, slice, u16_be, u32_be, zeros}

abbrev pub type_a : ℕ
type_a = 1

abbrev pub type_aaaa : ℕ
type_aaaa = 28

abbrev pub class_in : ℕ
class_in = 1

abbrev pub rcode_noerror : ℕ
rcode_noerror = 0

abbrev pub rcode_formerr : ℕ
rcode_formerr = 1

abbrev pub rcode_servfail : ℕ
rcode_servfail = 2

abbrev pub rcode_notimp : ℕ
rcode_notimp = 4

abbrev pub header_len : ℕ
header_len = 12

pub record Question : Type 0 where
  pub id : ℕ
  pub name : Text
  pub qtype : ℕ
  pub qclass : ℕ
  pub flags : ℕ
  pub raw : List ℕ

pub data ParseError : Type 0 where
  truncated : ParseError
  malformed : (id rcode : ℕ) → ParseError

-- `panic` is a slice out of bounds, and `stuck` a loop that ran out of fuel: neither happens.
pub data Result (A : Type 0) : Type 0 where
  ok : A → Result A
  err : ParseError → Result A
  panic : Result A
  stuck : Result A

infixl 5 ◌>>=◌ ◌>>◌
abbrev pub ◌>>=◌ : {A B : Type 0} → Result A → (A → Result B) → Result B
ok a >>= f = f a
err e >>= f = err e
panic >>= f = panic
stuck >>= f = stuck

abbrev pub ◌>>◌ : {B : Type 0} → Result (Unit {0}) → Result B → Result B
m >> k = m >>= λ _. k

abbrev pub or_err : {A : Type 0} → Option A → ParseError → Result A
or_err none e = err e
or_err (some a) e = ok a

abbrev pub or_panic : {A : Type 0} → Option A → Result A
or_panic none = panic
or_panic (some a) = ok a

abbrev pub refuse_if : Bool → ParseError → Result (Unit {0})
refuse_if true e = err e
refuse_if false e = ok tt

-- The loop over the labels of the name. It answers where the name ends, and the labels.
unfoldable pub labels_loop : ℕ → List ℕ → ℕ → ℕ → List Text → ℕ → Result (ℕ × List Text)
labels_loop zero buf id at labels name_len = stuck
labels_loop (suc fuel) buf id at labels name_len = elim (get_elem? buf at) [
  | none ↦ err (malformed id rcode_formerr)
  | some len ↦ elim (len == 0) [
    | true ↦ ok (at + 1, labels)
    | false ↦ do
      refuse_if (not (bit_and len 0xc0 == 0)) (malformed id rcode_formerr)
      label ← or_err (slice buf (at + 1) len) (malformed id rcode_formerr)
      refuse_if (ltb 255 (name_len + (len + 1))) (malformed id rcode_formerr)
      labels_loop fuel buf id (at + 1 + len) (labels ++ from_utf8_lossy label ∷ [])
          (name_len + (len + 1))
  ]
]

-- The part of `parse_query` behind the header's tests.
unfoldable pub parse_question : List ℕ → ℕ → ℕ → Result Question
parse_question buf id flags = do
  (at, labels) ← labels_loop (suc (length buf)) buf id header_len [] 0
  qtype ← or_err (u16_at buf at) (malformed id rcode_formerr)
  qclass ← or_err (u16_at buf (at + 2)) (malformed id rcode_formerr)
  raw ← or_panic (slice buf header_len (at + 4 - header_len))
  ok (record {
    id = id;
    name = join b'.' labels;
    qtype = qtype;
    qclass = qclass;
    flags = bit_and flags 0x7900;
    raw = raw;
  })

unfoldable pub parse_query : List ℕ → Result Question
parse_query buf = do
  refuse_if (ltb (length buf) header_len) truncated
  id ← or_err (u16_at buf 0) truncated
  flags ← or_err (u16_at buf 2) truncated
  refuse_if (not (bit_and flags 0x8000 == 0)) (malformed id rcode_formerr)
  refuse_if (not (bit_and (flags / 2 ^ 11) 0x0f == 0)) (malformed id rcode_notimp)
  count ← or_err (u16_at buf 4) (malformed id rcode_formerr)
  refuse_if (not (count == 1)) (malformed id rcode_formerr)
  parse_question buf id flags

abbrev pub is_ipv4 : IpAddr → Bool
is_ipv4 (v4 _) = true
is_ipv4 (v6 _) = false

abbrev pub is_ipv6 : IpAddr → Bool
is_ipv6 a = not (is_ipv4 a)

pub reply_flags : ℕ → ℕ → Bool → ℕ
reply_flags flags rcode authoritative =
    let flags' = bit_or (bit_or (bit_or 0x8000 flags) 0x0080) rcode in
    if authoritative then bit_or flags' 0x0400 else flags'

pub header : Question → ℕ → Bool → ℕ → List ℕ
header question rcode authoritative answers =
    u16_be question.id
    ++ u16_be (reply_flags question.flags rcode authoritative)
    ++ u16_be 1
    ++ u16_be answers
    ++ zeros 4

pub records_for : Question → List IpAddr → List IpAddr
records_for question addresses =
    let records =
      if question.qtype == type_a
      then filter is_ipv4 addresses
      else if question.qtype == type_aaaa
      then filter is_ipv6 addresses
      else [] in
    if question.qclass == class_in then records else []

-- One record: a pointer to the question's name, type, class, TTL, length and octets.
pub answer_record : ℕ → IpAddr → List ℕ
answer_record ttl (v4 octets) =
    0xc0 ∷ 0x0c ∷ u16_be type_a ++ u16_be class_in ++ u32_be ttl ++ u16_be 4 ++ octets
answer_record ttl (v6 octets) =
    0xc0 ∷ 0x0c ∷ u16_be type_aaaa ++ u16_be class_in ++ u32_be ttl ++ u16_be 16 ++ octets

pub answer_records : ℕ → List IpAddr → List ℕ
answer_records ttl [] = []
answer_records ttl (a ∷ records) = answer_record ttl a ++ answer_records ttl records

pub answer : Question → List IpAddr → ℕ → List ℕ
answer question addresses ttl =
    let records = records_for question addresses in
    header question rcode_noerror true (length records % 2 ^ 16)
    ++ question.raw
    ++ answer_records ttl records

pub error : Question → ℕ → List ℕ
error question rcode = header question rcode false 0 ++ question.raw

pub error_for_id : ℕ → ℕ → List ℕ
error_for_id id rcode = u16_be id ++ u16_be (bit_or 0x8080 rcode) ++ zeros 8

pub build_labels : List Text → List ℕ
build_labels [] = []
build_labels (label ∷ labels) =
    let bytes = as_bytes label in
    let rest = build_labels labels in
    if is_empty label
    then rest
    else min (length bytes) 63 ∷ take (min (length bytes) 63) bytes ++ rest

pub build_query : ℕ → Text → ℕ → List ℕ
unfolding build_labels
build_query id name qtype =
    u16_be id
    ++ u16_be 0x0100
    ++ u16_be 1
    ++ zeros 6
    ++ build_labels (split b'.' (trim_end (λ c. c == b'.') name))
    ++ 0 ∷ u16_be qtype
    ++ u16_be class_in
