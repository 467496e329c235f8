-- ===== src/Dns/Wire/Labels.antt =====
-- The loop over the labels of a question's name in crates/wsl-dns/src/wire.rs, and the bytes that it reads.
use wslvpn.Base.{
  ℕ, zero, suc, ◌+◌, ◌≤◌, ◌<◌, bit_and, ◌≡◌, refl, sym, subst, ◌≢◌, ◌⊎◌, inl, inr, some, List, [],
  ◌∷◌, ◌++◌, map, arith, ◌==◌, Bool-cases, Option-cases, none-ne-some, some_inj, length, get_elem?,
  drop, length-append, All,
}
use mathlib.Core.List.{append_assoc, append-nil}
use wslvpn.Base.Text.{Text}
use wslvpn.Base.Strings.{from_utf8_lossy}
use wslvpn.Dns.Wire.{ok, stuck, labels_loop}
use wslvpn.Dns.Wire.Bytes.{slice}
use wslvpn.Dns.Wire.Bits.{label_bits}
use wslvpn.Dns.Wire.Reading.{drop_of_get_elem?, slice_inv}

abbrev pub IsByte : ℕ → Type 0
IsByte b = b < 256

-- The bytes of a label, with what its length byte can say.
abbrev pub IsChunk : List ℕ → Type 0
IsChunk chunk = (1 ≤ length chunk) × (length chunk ≤ 63)

abbrev pub encode_chunks : List (List ℕ) → List ℕ
encode_chunks [] = []
encode_chunks (chunk ∷ chunks) = length chunk ∷ chunk ++ encode_chunks chunks

abbrev pub names : List (List ℕ) → List Text
names = map from_utf8_lossy

module _ (buf : List ℕ) (id : ℕ) where
  -- What one round did, if the loop succeeds.
  record Goes (fuel at : ℕ) (labels : List Text) (name_len : ℕ) (r : ℕ × List Text) (len : ℕ)
      : Type 0 where
    label : List ℕ
    plain : bit_and len 0xc0 ≡ 0
    nonzero : len ≢ 0
    sliced : slice buf (at + 1) len ≡ some label
    short : name_len + (len + 1) ≤ 255
    rest :
        labels_loop fuel buf id
          (at + 1 + len)
          (labels ++ from_utf8_lossy label ∷ [])
          (name_len + (len + 1))
        ≡ ok r

  round :
      (fuel at : ℕ) (labels : List Text) (name_len : ℕ) (r : ℕ × List Text)
      → labels_loop (suc fuel) buf id at labels name_len ≡ ok r
      → (len : ℕ) × (get_elem? buf at ≡ some len)
        × (((len ≡ 0) × (r ≡ (at + 1, labels))) ⊎ Goes fuel at labels name_len r len)
  unfolding labels_loop
  round fuel at labels name_len r e = elim (Option-cases (get_elem? buf at)) [
    | inl n ↦ absurd (ground arith)
    | inr (len, g) ↦ (
      len,
      g,
      elim (Bool-cases (len == 0)) [
        | inl z ↦ inl (ground arith, ground arith)
        | inr nz ↦ elim (Option-cases (slice buf (at + 1) len)) [
          | inl n ↦ absurd (ground arith)
          | inr (label, s) ↦ inr (record {
            label = label;
            plain = ground arith;
            nonzero = ground arith;
            sliced = s;
            short = ground arith;
            rest = ground arith;
          })
        ]
      ],
    )
  ]

-- What the loop has read when it succeeds: the labels, each behind its length, and the zero byte.
pub record ReadsName (buf : List ℕ) (at : ℕ) (labels : List Text) (r : ℕ × List Text) : Type 0 where
  pub chunks : List (List ℕ)
  pub well_formed : All IsChunk chunks
  pub bytes : drop at buf ≡ encode_chunks chunks ++ 0 ∷ drop r.0 buf
  pub names_of : r.1 ≡ labels ++ names chunks
  pub end_at : r.0 ≡ at + length (encode_chunks chunks) + 1

pub All-at :
    (P : ℕ → Type 0) (xs : List ℕ) (i : ℕ) {x : ℕ} → All P xs → get_elem? xs i ≡ some x → P x
All-at P [] i h e = absurd (none-ne-some e)
All-at P (x ∷ xs) zero h e = subst P (some_inj e) h.0
All-at P (x ∷ xs) (suc i) h e = All-at P xs i h.1 e

pub labels_loop-zero :
    (buf : List ℕ) (id at : ℕ) (labels : List Text) (name_len : ℕ)
    → labels_loop zero buf id at labels name_len ≡ stuck
unfolding labels_loop
labels_loop-zero buf id at labels name_len = refl

pub labels_loop-ok :
    (buf : List ℕ) (id fuel at : ℕ) (labels : List Text) (name_len : ℕ) (r : ℕ × List Text)
    → All IsByte buf
    → labels_loop fuel buf id at labels name_len ≡ ok r
    → ReadsName buf at labels r
labels_loop-ok buf id zero at labels name_len r bytes e =
    cc (e, labels_loop-zero buf id at labels name_len)
labels_loop-ok buf id (suc fuel) at labels name_len r bytes e =
    let (len, here, what) = round buf id fuel at labels name_len r e in
    elim what [
      | inl (zeroed, done) ↦ record {
        chunks = [];
        well_formed = tt;
        bytes = rw done (rw zeroed at (drop_of_get_elem? buf at here));
        names_of = rw done (sym (append-nil labels));
        end_at = rw done (omega arith);
      }
      | inr g ↦
          let later =
            labels_loop-ok buf id fuel (at + 1 + len) (labels ++ from_utf8_lossy g.label ∷ [])
              (name_len + (len + 1)) r bytes g.rest in
          let cut = slice_inv buf (at + 1) len g.sliced in
          record {
            chunks = g.label ∷ later.chunks;
            well_formed = (
              omega (
                arith,
                cut.1,
                g.nonzero,
                (label_bits len (All-at IsByte buf at bytes here)).0 g.plain,
              ),
              later.well_formed,
            );
            bytes = rw (drop_of_get_elem? buf at here, cut.0, later.bytes, cut.1, append_assoc);
            names_of =
                rw (later.names_of)
                  (append_assoc labels (from_utf8_lossy g.label ∷ []) (names later.chunks));
            end_at =
                omega
                  (arith, later.end_at, cut.1, length-append g.label (encode_chunks later.chunks));
          }
    ]
