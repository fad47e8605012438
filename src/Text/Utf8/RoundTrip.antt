-- ===== src/Text/Utf8/RoundTrip.antt =====
-- `from_utf8` on what `encode` writes.
use mathlib.Core.Path.{subst}
use mathlib.Core.Option.{some-injective}
use bindizr.Base.{
  ◌*◌, ◌-◌, ◌⊎◌, inl, inr, Option-cases, ℕ, ◌+◌, [], ◌∷◌, ◌++◌, append-nil, append_assoc, some, ◌≡◌,
  refl, arith, All, All-append, length, length-append,
}
use bindizr.Text.{Str, Bytes, is_scalar, IsScalar, len_utf8, byte_len}
use bindizr.Text.Utf8.{
  encode_char, encode, Pending, ready, wants, Decoder, lead, continue, read_byte, decode_from,
  at_end, from_utf8,
}

abbrev fresh : Str → Decoder
fresh s = record { pending = ready; text = s }

decode_from-encode_char :
    (c : ℕ) (s : Str) (rest : Bytes)
    → IsScalar c
    → decode_from (fresh s) (encode_char c ++ rest) ≡ decode_from (fresh (s ++ c ∷ [])) rest
unfolding decode_from encode_char read_byte is_scalar
decode_from-encode_char c s rest h = ground arith

decode_from-encode : (t s : Str) → All IsScalar t → decode_from (fresh s) (encode t) ≡ some (s ++ t)
unfolding encode
decode_from-encode [] s h = unfold decode_from at_end in rw append-nil
decode_from-encode (c ∷ t) s h = rw (
  decode_from-encode_char c s (encode t) h.0,
  decode_from-encode t (s ++ c ∷ []) h.1,
  append_assoc,
)

-- Decoding the UTF-8 of a text gives the text.
pub from_utf8-encode : (t : Str) → All IsScalar t → from_utf8 (encode t) ≡ some t
unfolding from_utf8
from_utf8-encode t h = decode_from-encode t [] h

-- What one byte adds to the text: nothing, or a scalar value.
data Grows (s : Str) (d : Decoder) : Type 0 where
  same : d.text ≡ s → Grows s d
  one_more : (c : ℕ) → d.text ≡ s ++ c ∷ [] → IsScalar c → Grows s d

lead-Grows :
    (s : Str) (b : ℕ) {d : Decoder}
    → lead s b ≡ some d
    → (d.text ≡ s) ⊎ ((d.text ≡ s ++ b ∷ []) × IsScalar b)
unfolding lead is_scalar
lead-Grows s b e = ground arith

continue-Grows :
    (s : Str) (l v m b : ℕ) {d : Decoder}
    → continue s l v m b ≡ some d
    → (d.text ≡ s) ⊎ ((d.text ≡ s ++ (v * 64 + (b - 0x80)) ∷ []) × IsScalar (v * 64 + (b - 0x80)))
unfolding continue
continue-Grows s l v m b e = ground arith

read_byte-Grows :
    (p : Pending) (s : Str) (b : ℕ) {d : Decoder} → read_byte p s b ≡ some d → Grows s d
unfolding read_byte
read_byte-Grows ready s b e = elim (lead-Grows s b e) [
  | inl h ↦ same h
  | inr h ↦ one_more b h.0 h.1
]
read_byte-Grows (wants l v m) s b e = elim (continue-Grows s l v m b e) [
  | inl h ↦ same h
  | inr h ↦ one_more _ h.0 h.1
]

Grows-IsScalar : (s : Str) {d : Decoder} → Grows s d → All IsScalar s → All IsScalar d.text
Grows-IsScalar s (same e) h = rw e h
Grows-IsScalar s (one_more c e k) h = rw e (All-append IsScalar s (c ∷ []) h (k, tt))

decode_from-IsScalar :
    (bs : Bytes) (p : Pending) (s : Str) {t : Str}
    → All IsScalar s
    → decode_from (record { pending = p; text = s }) bs ≡ some t
    → All IsScalar t
unfolding decode_from
decode_from-IsScalar [] ready s h e = unfold at_end in subst (All IsScalar) (some-injective _ _ e) h
decode_from-IsScalar [] (wants l v m) s h e = unfold at_end in cc
decode_from-IsScalar (b ∷ bs) p s h e = elim (Option-cases (read_byte p s b)) [
  | inl none_read ↦ cc (rw (none_read, decode_from) at e)
  | inr (d, read) ↦
      decode_from-IsScalar bs d.pending d.text (Grows-IsScalar s (read_byte-Grows p s b read) h)
        (rw (read, decode_from) at e)
]

-- Whatever `from_utf8` returns is a text: each of its characters is a scalar value.
pub from_utf8-IsScalar : (bs : Bytes) {t : Str} → from_utf8 bs ≡ some t → All IsScalar t
unfolding from_utf8
from_utf8-IsScalar bs e = decode_from-IsScalar bs ready [] tt e

pub length-encode_char : (c : ℕ) → length (encode_char c) ≡ len_utf8 c
unfolding encode_char len_utf8
length-encode_char c = ground arith

-- `str::len` counts the bytes of the encoding.
pub length-encode : (t : Str) → length (encode t) ≡ byte_len t
unfolding encode
length-encode [] = refl
length-encode (c ∷ t) =
    omega (arith, length-append (encode_char c) (encode t), length-encode_char c, length-encode t)
