-- ===== src/Record/Txt.antt =====
-- `TxtRecordValue` of dns/record/txt/mod.rs: character-strings, each behind its length octet. The
-- wrapped vector of octets is the value itself.
pub mod Chunks
use bindizr.Base.{
  ◌≡◌, ℕ, zero, suc, ◌+◌, ◌-◌, ◌*◌, ◌/◌, ◌%◌, ◌<◌, Bool, true, false, not, ◌&&◌, ◌||◌, List, [],
  ◌∷◌, ◌++◌, map, Option, none, some, ltb, leb, nat_eq, ◌==◌, list_eq, if◌then◌else◌, is_empty,
  length, take, drop, Result, ok, err, ◌>>=◌, ◌>>◌,
}
use bindizr.Text.{Str, Bytes, codes, is_ascii_digit, len_utf8}
use bindizr.Text.Trim.{trim, strip_prefix}
use bindizr.Text.Split.{join}
use bindizr.Text.Utf8.{encode, encode_char, from_utf8}

pub data TxtError : Type 0 where
  empty_value long_segment no_segments : TxtError
  not_separated invalid_escape dangling_escape unterminated not_utf8 : TxtError

-- The `base64` crate, with what it documents: decoding undoes encoding.
pub record Base64 : Type 0 where
  pub encode_text : Bytes → Str
  pub decode_text : Str → Option Bytes
  pub decode-encode : (bs : Bytes) → decode_text (encode_text bs) ≡ some bs

-- One character-string; `as u8` keeps the low octet of the length.
abbrev pub charstr : Bytes → Bytes
charstr bytes = (length bytes % 256) ∷ bytes

-- The loop of `from_segments`.
unfoldable pub push_segments : List Str → Bytes → Result TxtError Bytes
push_segments [] rdata = ok rdata
push_segments (s ∷ ss) rdata =
    let bytes = encode s in
    let rest = push_segments ss (rdata ++ charstr bytes) in
    if ltb 255 (length bytes) then err long_segment else rest

unfoldable pub from_segments : List Str → Result TxtError Bytes
unfolding push_segments
from_segments ss = do
  rdata ← push_segments ss []
  (if is_empty ss then err no_segments else ok rdata)

-- The loop of `from_string`, over the characters that are left and the open chunk.
unfoldable pub push_chars : Str → Bytes → Bytes → Bytes
push_chars [] rdata chunk = rdata ++ charstr chunk
push_chars (c ∷ s) rdata chunk =
    let full = ltb 255 (length chunk + len_utf8 c) in
    push_chars s (if full then rdata ++ charstr chunk else rdata)
      (if full then encode_char c else chunk ++ encode_char c)

unfoldable pub from_string : Str → Bytes
unfolding push_chars
from_string value = push_chars value [] []

-- `is_valid_txt_rdata`: every length octet has its octets behind it. Each round takes an octet, so
-- the length is enough fuel.
unfoldable pub is_valid_from : ℕ → Bytes → Bool
is_valid_from zero rdata = true
is_valid_from (suc fuel) [] = true
is_valid_from (suc fuel) (n ∷ rest) =
    let later = is_valid_from fuel (drop n rest) in if ltb (length rest) n then false else later

unfoldable pub is_valid_txt_rdata : Bytes → Bool
unfolding is_valid_from
is_valid_txt_rdata rdata = is_valid_from (length rdata) rdata

-- The slices that `to_content` and `to_presentation` take; `none` is the panic of a slice that is
-- out of range.
unfoldable pub chunks_from : ℕ → Bytes → Option (List Bytes)
chunks_from zero rdata = some []
chunks_from (suc fuel) [] = some []
chunks_from (suc fuel) (n ∷ rest) =
    let later = chunks_from fuel (drop n rest) in
    if ltb (length rest) n
    then none
    else elim later [ none ↦ none | some cs ↦ some (take n rest ∷ cs) ]

unfoldable pub chunks : Bytes → Option (List Bytes)
unfolding chunks_from
chunks rdata = chunks_from (length rdata) rdata

-- `\DDD`
abbrev pub decimal_escape : ℕ → Bytes
decimal_escape b = b'\\' ∷ (b'0' + b / 100 % 10) ∷ (b'0' + b / 10 % 10) ∷ (b'0' + b % 10) ∷ []

unfoldable pub escape_byte : ℕ → Bytes
escape_byte b =
    if b == b'"'
    then b'\\' ∷ b'"' ∷ []
    else if b == b'\\'
    then b'\\' ∷ b'\\' ∷ []
    else if leb 0x20 b && leb b 0x7E
    then b ∷ []
    else decimal_escape b

unfoldable pub escape_bytes : Bytes → Bytes
unfolding escape_byte
escape_bytes [] = []
escape_bytes (b ∷ bs) = escape_byte b ++ escape_bytes bs

-- The rendered text is ASCII, so its characters are its bytes.
unfoldable pub to_quoted_charstr : Bytes → Str
unfolding escape_bytes
to_quoted_charstr bytes = b'"' ∷ (escape_bytes bytes ++ b'"' ∷ [])

-- The rendering of the chunks.
unfoldable pub present_chunks : List Bytes → Str
unfolding to_quoted_charstr join
present_chunks [] = codes "\"\""
present_chunks (c ∷ cs) = join (codes " ") (map to_quoted_charstr (c ∷ cs))

unfoldable pub to_presentation : Bytes → Option Str
unfolding chunks present_chunks
to_presentation rdata = elim (chunks rdata) [ none ↦ none | some cs ↦ some (present_chunks cs) ]

-- Where `parse_quoted_segments` stands between two bytes.
pub data Mode : Type 0 where
  start quoted slash closed spaces : Mode
  digits : (left value : ℕ) → Mode

pub record Scanner : Type 0 where
  pub mode : Mode
  pub segment : Bytes
  pub done : List Str

abbrev pub at_mode : Mode → Bytes → List Str → Scanner
at_mode m segment done = record { mode = m; segment = segment; done = done }

-- The closing quote.
unfoldable pub close : Bytes → List Str → Result TxtError Scanner
close segment done =
    if ltb 255 (length segment) then err long_segment else elim (from_utf8 segment) [
      | none ↦ err not_utf8
      | some text ↦ ok (at_mode closed [] (done ++ text ∷ []))
    ]

unfoldable pub scan_byte : Mode → Bytes → List Str → ℕ → Result TxtError Scanner
unfolding close
scan_byte start segment done b =
    if b == b'"' then ok (at_mode quoted [] done) else err not_separated
scan_byte quoted segment done b =
    if b == b'"'
    then close segment done
    else if b == b'\\'
    then ok (at_mode slash segment done)
    else ok (at_mode quoted (segment ++ b ∷ []) done)
scan_byte slash segment done b =
    if is_ascii_digit b
    then ok (at_mode (digits 2 (b - b'0')) segment done)
    else ok (at_mode quoted (segment ++ b ∷ []) done)
scan_byte (digits left value) segment done b =
    let v = value * 10 + (b - b'0') in
    if not (is_ascii_digit b)
    then err invalid_escape
    else if ltb 1 left
    then ok (at_mode (digits (left - 1) v) segment done)
    else if ltb 255 v
    then err invalid_escape
    else ok (at_mode quoted (segment ++ v ∷ []) done)
scan_byte closed segment done b =
    if b == b' ' then ok (at_mode spaces [] done) else err not_separated
scan_byte spaces segment done b =
    if b == b' '
    then ok (at_mode spaces [] done)
    else if b == b'"'
    then ok (at_mode quoted [] done)
    else err not_separated

-- The end of the input.
unfoldable pub scan_end : Mode → List Str → Result TxtError (List Str)
scan_end start done = if is_empty done then err no_segments else ok done
scan_end quoted done = err unterminated
scan_end slash done = err dangling_escape
scan_end (digits left value) done = err invalid_escape
scan_end closed done = ok done
scan_end spaces done = ok done

unfoldable pub scan_from : Scanner → Bytes → Result TxtError (List Str)
scan_from s [] = scan_end s.mode s.done
scan_from s (b ∷ bs) = do s' ← scan_byte s.mode s.segment s.done b; scan_from s' bs

unfoldable pub parse_quoted_segments : Bytes → Result TxtError (List Str)
unfolding scan_from scan_byte scan_end
parse_quoted_segments bytes = scan_from (at_mode start [] []) bytes

abbrev pub starts_with_quote : Str → Bool
starts_with_quote [] = false
starts_with_quote (c ∷ s) = c == b'"'

-- `TxtRecordValue::parse`
unfoldable pub parse : Str → Result TxtError Bytes
unfolding parse_quoted_segments from_segments from_string
parse value =
    let trimmed = trim value in
    if not (starts_with_quote trimmed)
    then (if is_empty value then err empty_value else ok (from_string value))
    else do ss ← parse_quoted_segments (encode trimmed); from_segments ss

abbrev pub raw_txt_rdata_prefix : Str
raw_txt_rdata_prefix = codes "bindizr:txt-rdata:v1:"

module _ (b64 : Base64) where
  unfoldable pub into_encoded : Bytes → Str
  into_encoded rdata = raw_txt_rdata_prefix ++ b64.encode_text rdata

  -- `from_encoded`
  unfoldable pub from_encoded : Str → Option Bytes
  unfolding is_valid_txt_rdata
  from_encoded stored = elim (strip_prefix raw_txt_rdata_prefix stored) [
    | none ↦ none
    | some encoded ↦ elim (b64.decode_text encoded) [
      | none ↦ none
      | some rdata ↦ if is_valid_txt_rdata rdata then some rdata else none
    ]
  ]
