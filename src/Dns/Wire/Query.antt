-- ===== src/Dns/Wire/Query.antt =====
-- `parse_query` of crates/wsl-dns/src/wire.rs on any datagram.
use wslvpn.Base.{
  ℕ, suc, ◌+◌, ◌-◌, ◌*◌, ◌/◌, ◌^◌, ◌≤◌, ◌<◌, bit_and, ◌≡◌, refl, sym, ◌∙◌, ◌⊎◌, inl, inr, false,
  not, some, List, [], ◌∷◌, ◌++◌, arith, ltb, ◌==◌, ltb→lt, Bool-cases, Option-cases, length, take,
  drop, length-append, All,
}
use mathlib.Core.List.{append_assoc}
use wslvpn.Base.Text.{Text}
use wslvpn.Base.Strings.{join}
use wslvpn.Dns.Wire.{
  Question, ok, err, truncated, malformed, rcode_formerr, rcode_notimp, header_len, labels_loop,
  parse_question, parse_query,
}
use wslvpn.Dns.Wire.Bytes.{slice, u16_at}
use wslvpn.Dns.Wire.Labels.{IsByte, IsChunk, encode_chunks, names, labels_loop-ok}
use wslvpn.Dns.Wire.LabelsWritten.{labels_loop_total}
use wslvpn.Dns.Wire.Steps.{ok_parts, or_err-ok, or_panic-ok, refuse_if-ok}
use wslvpn.Dns.Wire.Reading.{
  slice_inv, u16_at_inv, u16_at_room, slice_total, u16_at_total, append-front_eq,
}

-- The bytes of a question: the name's labels, the zero byte, and type and class.
abbrev pub encode_question : List (List ℕ) → ℕ → ℕ → ℕ → ℕ → List ℕ
encode_question chunks t1 t2 c1 c2 = encode_chunks chunks ++ 0 ∷ t1 ∷ t2 ∷ c1 ∷ c2 ∷ []

-- A question agrees with the datagram that it was read from.
pub record IsReadFrom (buf : List ℕ) (q : Question) : Type 0 where
  pub chunks : List (List ℕ)
  pub well_formed : All IsChunk chunks
  pub t1 : ℕ
  pub t2 : ℕ
  pub c1 : ℕ
  pub c2 : ℕ
  pub rest : List ℕ
  pub flags : ℕ
  pub bytes : drop header_len buf ≡ q.raw ++ rest
  pub raw : q.raw ≡ encode_question chunks t1 t2 c1 c2
  pub name : q.name ≡ join b'.' (names chunks)
  pub qtype : q.qtype ≡ t1 * 256 + t2
  pub qclass : q.qclass ≡ c1 * 256 + c2
  pub id : u16_at buf 0 ≡ some q.id
  pub flags_at : u16_at buf 2 ≡ some flags
  pub is_query : bit_and flags 0x8000 ≡ 0
  pub standard : bit_and (flags / 2 ^ 11) 0x0f ≡ 0
  pub single : u16_at buf 4 ≡ some 1
  pub echoed : q.flags ≡ bit_and flags 0x7900

abbrev question_of : ℕ → ℕ → List Text → ℕ → ℕ → List ℕ → Question
question_of id flags labels qtype qclass raw = record {
  id = id;
  name = join b'.' labels;
  qtype = qtype;
  qclass = qclass;
  flags = bit_and flags 0x7900;
  raw = raw;
}

module _ (buf : List ℕ) (id flags : ℕ) where
  -- What a question that was read is made of.
  record Parts (q : Question) : Type 0 where
    at : ℕ
    labels : List Text
    qtype : ℕ
    qclass : ℕ
    raw : List ℕ
    looped : labels_loop (suc (length buf)) buf id header_len [] 0 ≡ ok (at, labels)
    type_at : u16_at buf at ≡ some qtype
    class_at : u16_at buf (at + 2) ≡ some qclass
    sliced : slice buf header_len (at + 4 - header_len) ≡ some raw
    made : q ≡ question_of id flags labels qtype qclass raw

  parse_question-Parts : (q : Question) → parse_question buf id flags ≡ ok q → Parts q
  unfolding parse_question
  parse_question-Parts q e =
      let (r, looped, e1) = ok_parts _ _ e in
      let (qtype, te, e2) = ok_parts _ _ e1 in
      let (qclass, ce, e3) = ok_parts _ _ e2 in
      let (raw, re, made) = ok_parts _ _ e3 in
      record {
        at = r.0;
        labels = r.1;
        qtype = qtype;
        qclass = qclass;
        raw = raw;
        looped = looped;
        type_at = or_err-ok _ _ te;
        class_at = or_err-ok _ _ ce;
        sliced = or_panic-ok _ re;
        made = cc;
      }

  parse_question_total :
      header_len ≤ length buf
      → ((q : Question) × (parse_question buf id flags ≡ ok q) × (q.id ≡ id))
        ⊎ (parse_question buf id flags ≡ err (malformed id rcode_formerr))
  unfolding parse_question
  parse_question_total h =
      elim (labels_loop_total buf id (suc (length buf)) header_len [] 0 h (omega arith)) [
        | inr e ↦ inr (rw e)
        | inl ((at, labels), e) ↦ elim (Option-cases (u16_at buf at)) [
          | inl n ↦ inr (rw (e, n))
          | inr (t, te) ↦ elim (Option-cases (u16_at buf (at + 2))) [
            | inl n ↦ inr (rw (e, te, n))
            | inr (c, ce) ↦
                let room : at + 2 + 2 ≤ length buf = u16_at_room buf (at + 2) ce in
                let raw = slice_total buf header_len (at + 4 - header_len) (omega arith) in
                inl (
                  question_of id flags labels t c
                      (take (at + 4 - header_len) (drop header_len buf)),
                  rw (e, te, ce, raw),
                  refl,
                )
          ]
        ]
      ]

raw_of :
    (buf : List ℕ) (at : ℕ) (chunks : List (List ℕ)) (raw more : List ℕ) {t1 t2 c1 c2 : ℕ}
    {rest : List ℕ}
    → drop header_len buf ≡ encode_chunks chunks ++ 0 ∷ drop at buf
    → drop at buf ≡ t1 ∷ t2 ∷ drop (at + 2) buf
    → drop (at + 2) buf ≡ c1 ∷ c2 ∷ rest
    → drop header_len buf ≡ raw ++ more
    → at ≡ header_len + length (encode_chunks chunks) + 1
    → length raw ≡ at + 4 - header_len
    → raw ≡ encode_question chunks t1 t2 c1 c2
raw_of buf at chunks raw more {t1} {t2} {c1} {c2} {rest} name type class cut end size =
    append-front_eq raw (encode_question chunks t1 t2 c1 c2) more rest
      (sym cut ∙ name ∙ rw (type, class) (sym (append_assoc (encode_chunks chunks) _ rest)))
      (omega (arith, length-append (encode_chunks chunks) (0 ∷ t1 ∷ t2 ∷ c1 ∷ c2 ∷ [])))

module _ (buf : List ℕ) where
  record Accepts (q : Question) : Type 0 where
    id : ℕ
    flags : ℕ
    long : ltb (length buf) header_len ≡ false
    id_at : u16_at buf 0 ≡ some id
    flags_at : u16_at buf 2 ≡ some flags
    is_query : not (bit_and flags 0x8000 == 0) ≡ false
    standard : not (bit_and (flags / 2 ^ 11) 0x0f == 0) ≡ false
    single : u16_at buf 4 ≡ some 1
    question : parse_question buf id flags ≡ ok q

  parse_query-Accepts : (q : Question) → parse_query buf ≡ ok q → Accepts q
  unfolding parse_query
  parse_query-Accepts q e =
      let (u, long, e1) = ok_parts _ _ e in
      let (id, ie, e2) = ok_parts _ _ e1 in
      let (flags, fe, e3) = ok_parts _ _ e2 in
      let (v, query, e4) = ok_parts _ _ e3 in
      let (w, standard, e5) = ok_parts _ _ e4 in
      let (count, ce, e6) = ok_parts {A = ℕ} _ _ e5 in
      let (x, single, e7) = ok_parts _ _ e6 in
      let one : count ≡ 1 = ground (arith, refuse_if-ok (not (count == 1)) _ single) in
      record {
        id = id;
        flags = flags;
        long = refuse_if-ok _ _ long;
        id_at = or_err-ok _ _ ie;
        flags_at = or_err-ok _ _ fe;
        is_query = refuse_if-ok _ _ query;
        standard = refuse_if-ok _ _ standard;
        single = rw (← one) (or_err-ok _ _ ce);
        question = e7;
      }

  -- The datagram that a successful parse has read, field by field: the id, the flags of a standard
  -- query, exactly one question, its labels, type and class; and the raw question that a reply
  -- echoes is the datagram's own bytes from offset 12 up to the end of the question.
  pub parse_query-IsReadFrom :
      (q : Question) → All IsByte buf → parse_query buf ≡ ok q → IsReadFrom buf q
  parse_query-IsReadFrom q bytes e =
      let a = parse_query-Accepts q e in
      let p = parse_question-Parts buf a.id a.flags q a.question in
      let name =
        labels_loop-ok buf a.id (suc (length buf)) header_len [] 0 (p.at, p.labels) bytes
          p.looped in
      let (t1, t2, type_d, type_v) = u16_at_inv buf p.at p.type_at in
      let (c1, c2, class_d, class_v) = u16_at_inv buf (p.at + 2) p.class_at in
      let (cut, size, room) = slice_inv buf header_len (p.at + 4 - header_len) p.sliced in
      record {
        chunks = name.chunks;
        well_formed = name.well_formed;
        t1 = t1;
        t2 = t2;
        c1 = c1;
        c2 = c2;
        rest = drop (header_len + (p.at + 4 - header_len)) buf;
        flags = a.flags;
        bytes = rw p.made cut;
        raw = rw p.made (
            raw_of buf p.at name.chunks p.raw (drop (header_len + (p.at + 4 - header_len)) buf)
              name.bytes type_d class_d cut name.end_at size);
        name = rw (p.made, name.names_of);
        qtype = rw p.made type_v;
        qclass = rw p.made class_v;
        id = rw p.made a.id_at;
        flags_at = a.flags_at;
        is_query = ground (arith, a.is_query);
        standard = ground (arith, a.standard);
        single = a.single;
        echoed = rw p.made;
      }

  -- On every buffer `parse_query` answers: it never slices out of bounds and its loop always ends.
  -- A buffer without a whole header is `truncated`. Any other gives a question or a `malformed`
  -- with FORMERR or NOTIMP, and either carries the id in the first two bytes.
  pub parse_query_total :
      ((length buf < header_len) × (parse_query buf ≡ err truncated))
      ⊎ ((header_len ≤ length buf)
          × ((id : ℕ) × (u16_at buf 0 ≡ some id)
              × (((q : Question) × (parse_query buf ≡ ok q) × (q.id ≡ id))
                  ⊎ ((parse_query buf ≡ err (malformed id rcode_formerr))
                      ⊎ (parse_query buf ≡ err (malformed id rcode_notimp))))))
  unfolding parse_query
  parse_query_total = elim (Bool-cases (ltb (length buf) header_len)) [
    | inl short ↦ inl (ltb→lt _ _ short, rw short)
    | inr long ↦
        let (id, ie) = u16_at_total buf 0 (ground arith) in
        let (flags, fe) = u16_at_total buf 2 (ground arith) in
        let (count, ce) = u16_at_total buf 4 (ground arith) in
        inr
          (ground arith, (id, ie, ground (arith, parse_question_total buf id flags (ground arith))))
  ]
