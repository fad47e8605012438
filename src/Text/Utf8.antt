-- ===== src/Text/Utf8.antt =====
-- `char::encode_utf8` and `String::from_utf8`.
pub mod RoundTrip
use bindizr.Base.{
  ℕ, zero, suc, ◌+◌, ◌-◌, ◌*◌, ◌/◌, ◌%◌, ◌&&◌, List, [], ◌∷◌, ◌++◌, Option, none, some, ltb, leb,
  if◌then◌else◌,
}
use bindizr.Text.{Str, Bytes, is_scalar}

-- `char::encode_utf8`
unfoldable pub encode_char : ℕ → Bytes
encode_char c =
    if ltb c 0x80
    then c ∷ []
    else if ltb c 0x800
    then (0xC0 + c / 64) ∷ (0x80 + c % 64) ∷ []
    else if ltb c 0x10000
    then (0xE0 + c / 4096) ∷ (0x80 + c / 64 % 64) ∷ (0x80 + c % 64) ∷ []
    else (0xF0 + c / 262144) ∷ (0x80 + c / 4096 % 64) ∷ (0x80 + c / 64 % 64) ∷ (0x80 + c % 64) ∷ []

-- `str::as_bytes`
unfoldable pub encode : Str → Bytes
encode [] = []
encode (c ∷ s) = encode_char c ++ encode s

-- A decoder between two bytes: nothing pending, or a sequence that wants `left` more bytes, has
-- read `value` and must spell a character of at least `least`.
pub data Pending : Type 0 where
  ready : Pending
  wants : (left value least : ℕ) → Pending

pub record Decoder : Type 0 where
  pub pending : Pending
  pub text : Str

lead : Str → ℕ → Option Decoder
lead s b =
    if ltb b 0x80
    then some (record { pending = ready; text = s ++ b ∷ [] })
    else if leb 0xC0 b && ltb b 0xE0
    then some (record { pending = wants 1 (b - 0xC0) 0x80; text = s })
    else if leb 0xE0 b && ltb b 0xF0
    then some (record { pending = wants 2 (b - 0xE0) 0x800; text = s })
    else if leb 0xF0 b && ltb b 0xF8
    then some (record { pending = wants 3 (b - 0xF0) 0x10000; text = s })
    else none

-- An overlong spelling, a surrogate and a value above 0x10FFFF are refused.
continue : Str → ℕ → ℕ → ℕ → ℕ → Option Decoder
continue s left value least b =
    let v = value * 64 + (b - 0x80) in
    if leb 0x80 b && ltb b 0xC0
    then (if ltb 1 left
        then some (record { pending = wants (left - 1) v least; text = s })
        else if leb least v && is_scalar v
        then some (record { pending = ready; text = s ++ v ∷ [] })
        else none)
    else none

read_byte : Pending → Str → ℕ → Option Decoder
unfolding lead continue
read_byte ready s b = lead s b
read_byte (wants left value least) s b = continue s left value least b

at_end : Pending → Str → Option Str
at_end ready s = some s
at_end (wants left value least) s = none

decode_from : Decoder → Bytes → Option Str
decode_from d [] = at_end d.pending d.text
decode_from d (b ∷ bs) = elim (read_byte d.pending d.text b) [
  | none ↦ none
  | some d' ↦ decode_from d' bs
]

-- `String::from_utf8`, and `str::from_utf8`
unfoldable pub from_utf8 : Bytes → Option Str
unfolding decode_from read_byte at_end encode
from_utf8 bs = decode_from (record { pending = ready; text = [] }) bs
