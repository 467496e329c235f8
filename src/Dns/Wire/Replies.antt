-- ===== src/Dns/Wire/Replies.antt =====
-- The replies of crates/wsl-dns/src/wire.rs, read back by its `parse_response`.
use wslvpn.Base.{
  ℕ, suc, ◌+◌, ◌*◌, ◌/◌, ◌%◌, ◌<◌, ◌≡◌, refl, sym, ap, ◌∙◌, Bool, some, List, [], ◌∷◌, ◌++◌, arith,
  length, drop, length-append, length-drop, All,
}
use mathlib.Core.List.{append_assoc, append-nil}
use wslvpn.Dns.Wire.{Question, IpAddr, v4, v6, reply_flags, header, answer_record, answer_records}
use wslvpn.Dns.Wire.Bits.{FlagsRead}
use wslvpn.Dns.Wire.Bytes.{slice, u16_at, u16_be, u32_be}
use wslvpn.Dns.Wire.Labels.{encode_chunks}
use wslvpn.Dns.Wire.Query.{IsReadFrom}
use wslvpn.Dns.Wire.Reading.{drop_past, slice_of, u16_at_of}
use wslvpn.Dns.Wire.Skipping.{skip_name-chunks, skip_name_pointer}
use wslvpn.Dns.Wire.Response.{skip_name, skip_questions, read_answers, push_address, parse_response}

-- An address has the octets of its family.
abbrev pub IsAddress : IpAddr → Type 0
IsAddress (v4 octets) = length octets ≡ 4
IsAddress (v6 octets) = length octets ≡ 16

-- One round of `read_answers` over a record with the given type and octets.
one_record :
    (n : ℕ) (buf : List ℕ) (at ttl t size : ℕ) (octets rest : List ℕ) (addresses : List IpAddr)
    → length octets ≡ size
    → drop at buf ≡ 0xc0 ∷ 0x0c ∷ 0 ∷ t ∷ u16_be 1 ++ u32_be ttl ++ (0 ∷ size ∷ (octets ++ rest))
    → (read_answers (suc n) buf at addresses
        ≡ read_answers n buf (at + 2 + (10 + size)) (push_address t size octets addresses))
      × (drop (at + 2 + (10 + size)) buf ≡ rest)
unfolding read_answers
one_record n buf at ttl t size octets rest addresses len d = (
  rw (skip_name_pointer buf at 0x0c d, type_at, size_at, cut),
  let e : at + 2 + (10 + size) ≡ at + 2 + 10 + length octets = omega arith in
      rw e (drop_past buf (at + 2 + 10) octets d12),
)
  where
    d2 : drop (at + 2) buf ≡ 0 ∷ t ∷ u16_be 1 ++ u32_be ttl ++ (0 ∷ size ∷ (octets ++ rest))
    d2 = drop_past buf at (0xc0 ∷ 0x0c ∷ []) d

    d10 : drop (at + 2 + 8) buf ≡ 0 ∷ size ∷ (octets ++ rest)
    d10 = drop_past buf (at + 2) (0 ∷ t ∷ u16_be 1 ++ u32_be ttl) d2

    d12 : drop (at + 2 + 10) buf ≡ octets ++ rest
    d12 = drop_past buf (at + 2) (0 ∷ t ∷ u16_be 1 ++ u32_be ttl ++ (0 ∷ size ∷ [])) d2

    type_at : u16_at buf (at + 2) ≡ some t
    type_at = u16_at_of buf (at + 2) 0 t d2 ∙ ap some (omega arith)

    size_at : u16_at buf (at + 2 + 8) ≡ some size
    size_at = u16_at_of buf (at + 2 + 8) 0 size d10 ∙ ap some (omega arith)

    cut : slice buf (at + 2 + 10) size ≡ some octets
    cut = rw len at (
        slice_of buf (at + 2 + 10) octets rest (omega (arith, ap length d, length-drop at buf)) d12)

module _ (ttl : ℕ) (octets : List ℕ) (records : List IpAddr) (rest : List ℕ) where
  record_v4 :
      answer_records ttl (v4 octets ∷ records) ++ rest
      ≡ 0xc0 ∷ 0x0c ∷ 0 ∷ 1 ∷ u16_be 1
        ++ u32_be ttl
        ++ (0 ∷ 4 ∷ (octets ++ (answer_records ttl records ++ rest)))
  unfolding answer_records answer_record
  record_v4 = rw (append_assoc octets (answer_records ttl records) rest)

  record_v6 :
      answer_records ttl (v6 octets ∷ records) ++ rest
      ≡ 0xc0 ∷ 0x0c ∷ 0 ∷ 28 ∷ u16_be 1
        ++ u32_be ttl
        ++ (0 ∷ 16 ∷ (octets ++ (answer_records ttl records ++ rest)))
  unfolding answer_records answer_record
  record_v6 = rw (append_assoc octets (answer_records ttl records) rest)

pub read_answers-records :
    (records : List IpAddr) (buf : List ℕ) (at ttl : ℕ) (rest : List ℕ) (addresses : List IpAddr)
    → All IsAddress records
    → drop at buf ≡ answer_records ttl records ++ rest
    → read_answers (length records) buf at addresses ≡ some (addresses ++ records)
read_answers-records [] buf at ttl rest addresses good d =
    unfold read_answers in ap some (sym (append-nil addresses))
read_answers-records (v4 o ∷ records) buf at ttl rest addresses (len, good) d =
    let (step, behind) =
      one_record (length records) buf at ttl 1 4 o (answer_records ttl records ++ rest) addresses
        len (d ∙ record_v4 ttl o records rest) in
    step
    ∙ read_answers-records records buf (at + 2 + (10 + 4)) ttl rest (addresses ++ v4 o ∷ []) good
        behind
    ∙ ap some (append_assoc addresses (v4 o ∷ []) records)
read_answers-records (v6 o ∷ records) buf at ttl rest addresses (len, good) d =
    let (step, behind) =
      one_record (length records) buf at ttl 28 16 o (answer_records ttl records ++ rest) addresses
        len (d ∙ record_v6 ttl o records rest) in
    step
    ∙ read_answers-records records buf (at + 2 + (10 + 16)) ttl rest (addresses ++ v6 o ∷ []) good
        behind
    ∙ ap some (append_assoc addresses (v6 o ∷ []) records)

-- The number behind two bytes that were written from it.
pub u16_back : (n : ℕ) → n < 65536 → n / 256 % 256 * 256 + n % 256 ≡ n
u16_back n h = omega arith

skip_one :
    (buf : List ℕ) (at : ℕ) {end : ℕ}
    → skip_name buf at ≡ some end
    → skip_questions 1 buf at ≡ some (end + 4)
unfolding skip_questions
skip_one buf at e = rw e

-- A reply is read up to its answers.
pub reply_read :
    (buf : List ℕ) (q : Question) (rcode n : ℕ) (authoritative : Bool) (body : List ℕ)
    → IsReadFrom buf q
    → q.id < 65536
    → FlagsRead q.flags rcode authoritative
    → n < 65536
    → let reply = header q rcode authoritative n ++ q.raw ++ body in
      (at : ℕ) × (drop at reply ≡ body)
      × ((found : List IpAddr)
          → read_answers n reply at [] ≡ some found
          → parse_response reply
            ≡ some (record {
              id = q.id;
              rcode = rcode;
              authoritative = authoritative;
              addresses = found;
            }))
unfolding header parse_response
reply_read buf q rcode n authoritative body p hid (fits, response, code, auth) hn = (
  name_end + 4,
  behind,
  λ found e. rw (id_at, flags_at, response, count_at, answers_at, skipped, e, code, auth),
)
  where
    reply : List ℕ
    reply = header q rcode authoritative n ++ q.raw ++ body

    f : ℕ
    f = reply_flags q.flags rcode authoritative

    name_end : ℕ
    name_end = 12 + length (encode_chunks p.chunks) + 1

    id_at : u16_at reply 0 ≡ some q.id
    id_at = u16_at_of reply 0 (q.id / 256 % 256) (q.id % 256) refl ∙ ap some (u16_back q.id hid)

    flags_at : u16_at reply 2 ≡ some f
    flags_at = u16_at_of reply 2 (f / 256 % 256) (f % 256) refl ∙ ap some (u16_back f fits)

    count_at : u16_at reply 4 ≡ some 1
    count_at = u16_at_of reply 4 0 1 refl

    answers_at : u16_at reply 6 ≡ some n
    answers_at = u16_at_of reply 6 (n / 256 % 256) (n % 256) refl ∙ ap some (u16_back n hn)

    from_name : drop 12 reply ≡ encode_chunks p.chunks ++ 0 ∷ (p.t1 ∷ p.t2 ∷ p.c1 ∷ p.c2 ∷ body)
    from_name = rw p.raw (append_assoc (encode_chunks p.chunks) _ body)

    named : skip_name reply 12 ≡ some name_end
    named = skip_name-chunks reply 12 p.chunks _ from_name p.well_formed

    skipped : skip_questions 1 reply 12 ≡ some (name_end + 4)
    skipped = skip_one reply 12 named

    behind : drop (name_end + 4) reply ≡ body
    behind =
        let e : name_end + 4 ≡ 12 + length q.raw = omega (
          arith,
          ap length p.raw,
          length-append (encode_chunks p.chunks) (0 ∷ p.t1 ∷ p.t2 ∷ p.c1 ∷ p.c2 ∷ []),
        ) in
        rw e (drop_past reply 12 q.raw refl)
