-- ===== src/Dns/Wire/LabelsWritten.antt =====
-- The loop over the labels of crates/wsl-dns/src/wire.rs on a name that is written well, and its
-- two possible answers on any buffer.
use wslvpn.Base.{
  ℕ, zero, suc, ◌+◌, ◌≤◌, ◌<◌, bit_and, ◌≡◌, sym, ap, ◌∙◌, ◌⊎◌, inl, inr, some, List, [], ◌∷◌, ◌++◌,
  arith, Option-cases, length, get_elem?, drop, length-append, length-drop, All,
}
use mathlib.Core.Path.{ap₂}
use mathlib.Core.List.{append_assoc, append-nil}
use wslvpn.Base.Text.{Text}
use wslvpn.Base.Strings.{from_utf8_lossy}
use wslvpn.Dns.Wire.{ok, err, malformed, rcode_formerr, labels_loop}
use wslvpn.Dns.Wire.Bytes.{slice}
use wslvpn.Dns.Wire.Bits.{label_bits}
use wslvpn.Dns.Wire.Labels.{IsChunk, encode_chunks, names}
use wslvpn.Dns.Wire.Reading.{get_elem?_at, drop_past, slice_of, slice_inv}

module _ (buf : List ℕ) (id : ℕ) where
  stops :
      (fuel at : ℕ) (labels : List Text) (name_len : ℕ)
      → get_elem? buf at ≡ some 0
      → labels_loop (suc fuel) buf id at labels name_len ≡ ok (at + 1, labels)
  unfolding labels_loop
  stops fuel at labels name_len e = ground arith

  goes_on :
      (fuel at : ℕ) (labels : List Text) (name_len len : ℕ) (label : List ℕ)
      → get_elem? buf at ≡ some len
      → 1 ≤ len
      → bit_and len 0xc0 ≡ 0
      → slice buf (at + 1) len ≡ some label
      → name_len + (len + 1) ≤ 255
      → labels_loop (suc fuel) buf id at labels name_len
        ≡ labels_loop fuel buf id
            (at + 1 + len)
            (labels ++ from_utf8_lossy label ∷ [])
            (name_len + (len + 1))
  unfolding labels_loop
  goes_on fuel at labels name_len len label here pos plain cut short = ground arith

  pub labels_loop-chunks :
      (fuel at : ℕ) (labels : List Text) (name_len : ℕ) (chunks : List (List ℕ)) (rest : List ℕ)
      → drop at buf ≡ encode_chunks chunks ++ 0 ∷ rest
      → at ≤ length buf
      → All IsChunk chunks
      → name_len + length (encode_chunks chunks) ≤ 255
      → length chunks < fuel
      → labels_loop fuel buf id at labels name_len
        ≡ ok (at + length (encode_chunks chunks) + 1, labels ++ names chunks)
  labels_loop-chunks zero at labels name_len chunks rest d fits good short enough =
      absurd (omega arith)
  labels_loop-chunks (suc fuel) at labels name_len [] rest d fits good short enough =
      stops fuel at labels name_len (get_elem?_at buf at d)
      ∙ ap₂ (λ n ls. ok (n, ls)) (omega arith) (sym (append-nil labels))
  labels_loop-chunks (suc fuel) at labels name_len (c ∷ cs) rest d fits (g, gs) short enough =
      goes_on fuel at labels name_len (length c) c (get_elem?_at buf at d) g.0
        ((label_bits (length c) (omega arith)).1 (omega arith))
        (slice_of buf (at + 1) c (encode_chunks cs ++ 0 ∷ rest) (omega (arith, room)) behind)
        (omega (arith, room))
      ∙ labels_loop-chunks fuel (at + 1 + length c) (labels ++ from_utf8_lossy c ∷ [])
          (name_len + (length c + 1)) cs rest (drop_past buf (at + 1) c behind)
          (omega (arith, room)) gs (omega (arith, room)) (omega arith)
      ∙ ap₂ (λ n ls. ok (n, ls)) (omega (arith, room))
          (append_assoc labels (from_utf8_lossy c ∷ []) (names cs))
    where
      whole : drop at buf ≡ length c ∷ (c ++ (encode_chunks cs ++ 0 ∷ rest))
      whole = d ∙ ap (◌∷◌ (length c)) (append_assoc c (encode_chunks cs) (0 ∷ rest))

      behind : drop (at + 1) buf ≡ c ++ (encode_chunks cs ++ 0 ∷ rest)
      behind = drop_past buf at (length c ∷ []) whole

      room :
          (at + 1 + length c ≤ length buf)
          × (length (c ++ encode_chunks cs) ≡ length c + length (encode_chunks cs))
      room = omega (
        arith,
        ap length whole,
        length-drop at buf,
        length-append c (encode_chunks cs ++ 0 ∷ rest),
        length-append c (encode_chunks cs),
      )

  -- With a round for every byte left the loop ends, in a name or in FORMERR.
  pub labels_loop_total :
      (fuel at : ℕ) (labels : List Text) (name_len : ℕ)
      → at ≤ length buf
      → length buf < at + fuel
      → ((r : ℕ × List Text) × (labels_loop fuel buf id at labels name_len ≡ ok r))
        ⊎ (labels_loop fuel buf id at labels name_len ≡ err (malformed id rcode_formerr))
  unfolding labels_loop
  labels_loop_total zero at labels name_len fits h = absurd (omega arith)
  labels_loop_total (suc fuel) at labels name_len fits h = elim (Option-cases (get_elem? buf at)) [
    | inl n ↦ inr (ground arith)
    | inr (len, g) ↦ elim (Option-cases (slice buf (at + 1) len)) [
      | inl n ↦ ground arith
      | inr (label, s) ↦
          let cut = slice_inv buf (at + 1) len s in
          let later =
            labels_loop_total fuel (at + 1 + len) (labels ++ from_utf8_lossy label ∷ [])
              (name_len + (len + 1)) cut.2 (omega arith) in
          ground (arith, later)
    ]
  ]
