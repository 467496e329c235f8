-- ===== src/Dns/Wire/Runs.antt =====
-- A query, its answer and an error reply as bytes, and the theorems on the wire format at them.
use wslvpn.Base.{
  ◌≢◌, ◌↔◌, Option, ℕ, suc, ◌≤◌, ◌<◌, ◌≡◌, refl, ◌⊎◌, true, false, some, List, [], ◌∷◌, arith,
  length, All,
}
use wslvpn.Base.Text.{codes}
use wslvpn.Base.Strings.{from_utf8_lossy, join, split, trim_end, as_bytes}
use wslvpn.Dns.Wire.{
  Question, IpAddr, v4, v6, answer, error, ok, err, truncated, malformed, parse_query,
  parse_question, build_query, labels_loop, rcode_noerror, rcode_formerr, rcode_notimp, header_len,
}
use wslvpn.Dns.Wire.Answers.{parse_response-answer, parse_response-error}
use wslvpn.Dns.Wire.Bytes.{slice, u16_at}
use wslvpn.Dns.Wire.Labels.{IsByte}
use wslvpn.Dns.Wire.Query.{IsReadFrom, parse_query-IsReadFrom, parse_query_total}
use wslvpn.Dns.Wire.Response.{out_of_fuel, parse_response, skip_loop, skip_name}
use wslvpn.Dns.Wire.Skipping.{Skips, skip_name-Skips}

-- The query for the A record of "a.b" with id 7, as `build_query` writes it.
abbrev ask_a : List ℕ
ask_a = 0 ∷ 7 ∷ 1 ∷ 0 ∷ 0 ∷ 1 ∷ 0 ∷ 0 ∷ 0 ∷ 0 ∷ 0 ∷ 0 ∷ 1 ∷ b'a' ∷ 1 ∷ b'b' ∷ 0 ∷ 0 ∷ 1 ∷ 0 ∷ 1 ∷ []

abbrev asked : Question
asked = record {
  id = 7;
  name = codes "a.b";
  qtype = 1;
  qclass = 1;
  flags = 256;
  raw = 1 ∷ b'a' ∷ 1 ∷ b'b' ∷ 0 ∷ 0 ∷ 1 ∷ 0 ∷ 1 ∷ [];
}

abbrev both : List IpAddr
both =
    v4 (10 ∷ 0 ∷ 0 ∷ 5 ∷ [])
    ∷ v6 (0xfd ∷ 0 ∷ 0 ∷ 0 ∷ 0 ∷ 0 ∷ 0 ∷ 0 ∷ 0 ∷ 0 ∷ 0 ∷ 0 ∷ 0 ∷ 0 ∷ 0 ∷ 5 ∷ [])
    ∷ []

built : build_query 7 (codes "a.b.") 1 ≡ ask_a
unfolding build_query split trim_end as_bytes
built = refl

parsed : parse_query ask_a ≡ ok asked
unfolding parse_query parse_question labels_loop u16_at slice from_utf8_lossy join
parsed = refl

bytes : All IsByte ask_a
bytes = omega arith

parse_query_total_example :
    ((length ask_a < header_len) × (parse_query ask_a ≡ err truncated))
    ⊎ ((header_len ≤ length ask_a)
        × ((id : ℕ) × (u16_at ask_a 0 ≡ some id)
            × (((q : Question) × (parse_query ask_a ≡ ok q) × (q.id ≡ id))
                ⊎ ((parse_query ask_a ≡ err (malformed id rcode_formerr))
                    ⊎ (parse_query ask_a ≡ err (malformed id rcode_notimp))))))
parse_query_total_example = parse_query_total ask_a

parse_query-IsReadFrom_example : IsReadFrom ask_a asked
parse_query-IsReadFrom_example = parse_query-IsReadFrom ask_a asked bytes parsed

parse_response-answer_example :
    parse_response (answer asked both 30)
    ≡ some (record {
      id = 7;
      rcode = rcode_noerror;
      authoritative = true;
      addresses = v4 (10 ∷ 0 ∷ 0 ∷ 5 ∷ []) ∷ [];
    })
parse_response-answer_example =
    parse_response-answer ask_a asked both 30 bytes parsed (refl, (refl, tt)) (omega arith)

parse_response-error_example :
    parse_response (error asked 2)
    ≡ some (record { id = 7; rcode = 2; authoritative = false; addresses = [] })
parse_response-error_example = parse_response-error ask_a asked 2 bytes parsed (omega arith)

skip_name-Skips_example :
    (skip_loop (suc (length ask_a)) ask_a 12 ≢ out_of_fuel)
    × ((o : Option ℕ) → (skip_name ask_a 12 ≡ o) ↔ Skips ask_a 12 o)
skip_name-Skips_example = skip_name-Skips ask_a 12
