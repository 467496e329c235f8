-- ===== src/Dns/Wire/Answers.antt =====
-- The answers of crates/wsl-dns/src/wire.rs: which addresses a client reads out of them.
use wslvpn.Base.{
  ℕ, zero, suc, ◌+◌, ◌%◌, ◌^◌, ◌<◌, bit_or, ◌≡◌, refl, sym, ap, subst, ◌∙◌, ◌⊎◌, Bool, true, false,
  ◌&&◌, ◌||◌, some, List, [], ◌∷◌, ◌++◌, arith, ◌==◌, length, drop, filter, All,
}
use mathlib.Core.List.{append-nil}
use wslvpn.Dns.Wire.{
  Question, IpAddr, is_ipv4, is_ipv6, type_a, type_aaaa, class_in, rcode_noerror, header,
  records_for, answer_records, answer, error, error_for_id, ok, parse_query,
}
use wslvpn.Dns.Wire.Bits.{reply_flags-FlagsRead, query_flags_cases, error_flags_read}
use wslvpn.Dns.Wire.Bytes.{u16_at}
use wslvpn.Dns.Wire.Labels.{IsByte}
use wslvpn.Dns.Wire.Query.{IsReadFrom, parse_query-IsReadFrom}
use wslvpn.Dns.Wire.Reading.{u16_at_of, u16_at_inv}
use wslvpn.Dns.Wire.Replies.{IsAddress, read_answers-records, reply_read, u16_back}
use wslvpn.Dns.Wire.Response.{skip_questions, read_answers, parse_response}

-- What a question asks for: records of class IN, and of the question's type.
abbrev pub wanted : Question → IpAddr → Bool
wanted q a =
    q.qclass == class_in
    && ((q.qtype == type_a && is_ipv4 a) || (q.qtype == type_aaaa && is_ipv6 a))

pub records_for-filter :
    (q : Question) (addresses : List IpAddr) → records_for q addresses ≡ filter (wanted q) addresses
unfolding records_for
records_for-filter q [] = ground arith
records_for-filter q (a ∷ addresses) = ground (arith, records_for-filter q addresses)

module _ {A : Type 0} (P : A → Type 0) where
  pub All-filter : (p : A → Bool) (xs : List A) → All P xs → All P (filter p xs)
  All-filter p [] h = tt
  All-filter p (x ∷ xs) (h, hs) = ground (arith, All-filter p xs hs)

  pub All-drop : (n : ℕ) (xs : List A) → All P xs → All P (drop n xs)
  All-drop zero xs h = h
  All-drop (suc n) [] h = tt
  All-drop (suc n) (x ∷ xs) (h, hs) = All-drop n xs hs

pub u16_at_bound :
    (buf : List ℕ) (at : ℕ) {v : ℕ} → All IsByte buf → u16_at buf at ≡ some v → v < 65536
u16_at_bound buf at bytes e =
    let (hi, lo, d, same) = u16_at_inv buf at e in
    let both : All IsByte (hi ∷ lo ∷ drop (at + 2) buf) =
      subst (All IsByte) d (All-drop IsByte at buf bytes) in
    omega (arith, both.0, both.1.0)

flags_of :
    (buf : List ℕ) (q : Question)
    → All IsByte buf
    → IsReadFrom buf q
    → (q.flags ≡ 0) ⊎ (q.flags ≡ 256)
flags_of buf q bytes p =
    rw p.echoed (query_flags_cases p.flags (u16_at_bound buf 2 bytes p.flags_at) p.standard)

-- A client that parses the answer to a question that was read reads back the question's id, NOERROR,
-- the authoritative bit, and exactly the given addresses of the family asked for, in their order:
-- none if the class is not IN or the type neither A nor AAAA. The addresses have the octets of
-- their family, and at most 65535 of them are wanted.
pub parse_response-answer :
    (buf : List ℕ) (q : Question) (addresses : List IpAddr) (ttl : ℕ)
    → All IsByte buf
    → parse_query buf ≡ ok q
    → All IsAddress addresses
    → length (filter (wanted q) addresses) < 65536
    → parse_response (answer q addresses ttl)
      ≡ some (record {
        id = q.id;
        rcode = rcode_noerror;
        authoritative = true;
        addresses = filter (wanted q) addresses;
      })
unfolding answer
parse_response-answer buf q addresses ttl bytes e good few =
    let records = filter (wanted q) addresses in
    let p = parse_query-IsReadFrom buf q bytes e in
    let counted : length records % 2 ^ 16 ≡ length records = omega (arith, few) in
    let read =
      reply_read buf q rcode_noerror (length records) true (answer_records ttl records) p
        (u16_at_bound buf 0 bytes p.id)
        (reply_flags-FlagsRead q.flags rcode_noerror true (flags_of buf q bytes p) (omega arith))
        few in
    rw (records_for-filter q addresses, counted)
      (read.2 records (
        read_answers-records records _ read.0 ttl [] []
          (All-filter IsAddress (wanted q) addresses good) (read.1 ∙ sym (append-nil _))))

-- So with an error reply: the id, the code and no address; it is not authoritative.
pub parse_response-error :
    (buf : List ℕ) (q : Question) (rcode : ℕ)
    → All IsByte buf
    → parse_query buf ≡ ok q
    → rcode < 16
    → parse_response (error q rcode)
      ≡ some (record { id = q.id; rcode = rcode; authoritative = false; addresses = [] })
unfolding error
parse_response-error buf q rcode bytes e small =
    let p = parse_query-IsReadFrom buf q bytes e in
    let read =
      reply_read buf q rcode 0 false [] p (u16_at_bound buf 0 bytes p.id)
        (reply_flags-FlagsRead q.flags rcode false (flags_of buf q bytes p) small) (omega arith) in
    rw (append-nil (header q rcode false 0 ++ q.raw)) at (read.2 [] (unfold read_answers in refl))

-- And with the reply to a query that could not be parsed past its header.
parse_response-error_for_id :
    (id rcode : ℕ)
    → id < 65536
    → rcode < 16
    → parse_response (error_for_id id rcode)
      ≡ some (record { id = id; rcode = rcode; authoritative = false; addresses = [] })
unfolding error_for_id parse_response skip_questions read_answers
parse_response-error_for_id id rcode hid small =
    let (fits, response, code, plain) = error_flags_read rcode small in
    let flags = bit_or 0x8080 rcode in
    let id_at = u16_at_of (error_for_id id rcode) 0 _ _ refl ∙ ap some (u16_back id hid) in
    let flags_at = u16_at_of (error_for_id id rcode) 2 _ _ refl ∙ ap some (u16_back flags fits) in
    let none_at : u16_at (error_for_id id rcode) 4 ≡ some 0 = u16_at_of _ 4 0 0 refl in
    let none_at' : u16_at (error_for_id id rcode) 6 ≡ some 0 = u16_at_of _ 6 0 0 refl in
    rw (id_at, flags_at, response, none_at, none_at', code, plain)
