-- ===== src/Name/Decode.antt =====
-- `decode_name_labels` of dns/name/owner_name.rs. The iterator over the characters is the list of
-- those that are left, and the characters of an escape that were taken are its state.
pub mod RoundTrip
pub mod Sound
use mathlib.Core.Bool.{cond}
use bindizr.Base.{
  ℕ, ◌+◌, ◌-◌, ◌*◌, ◌≤◌, Bool, true, false, ◌&&◌, List, [], ◌∷◌, ◌++◌, map, Option, none, some, ltb,
  nat_eq, ◌==◌, if◌then◌else◌, is_empty, length, Result, ok, err, ◌>>=◌, ◌>>◌, leb,
}
use bindizr.Text.{Str, Bytes, is_ascii_digit, to_digit, to_ascii_lowercase}
use bindizr.Text.Utf8.{encode_char, from_utf8}
use bindizr.Text.Trim.{trim, trim_end_dots}
use bindizr.Name.Label.{
  ParseNameError, empty, whitespace, dangling_escape, invalid_escape, non_utf8_label,
  classify_owner_label, classify_wire_len, has_whitespace_or_control, join_labels,
}

-- What the decoder has read of an escape: nothing, its `\`, or some of the digits of `\DDD`.
pub data Escape : Type 0 where
  outside slash : Escape
  digits : (left octet : ℕ) → Escape

pub record Reader : Type 0 where
  pub escape : Escape
  pub labels : List Str
  pub label : Bytes

unfoldable pub finish_label : Bytes → Result ParseNameError Str
finish_label label = elim (from_utf8 label) [
  | none ↦ err non_utf8_label
  | some text ↦ ok (to_ascii_lowercase text)
]

abbrev pub push : List Str → Bytes → Bytes → Reader
push labels label bytes = record { escape = outside; labels = labels; label = label ++ bytes }

abbrev end_label : List Str → Bytes → Result ParseNameError Reader
end_label labels label = do
  l ← finish_label label
  ok (record { escape = outside; labels = labels ++ l ∷ []; label = [] })

-- One digit of `\DDD`, of which `left` are still to come.
abbrev read_digit : ℕ → ℕ → List Str → Bytes → Option ℕ → Result ParseNameError Reader
read_digit left octet labels label none = err invalid_escape
read_digit left octet labels label (some d) =
    let value = octet * 10 + d in
    if ltb 1 left
    then ok (record { escape = digits (left - 1) value; labels = labels; label = label })
    else if ltb 255 value
    then err invalid_escape
    else ok (push labels label (value ∷ []))

unfoldable pub read_char : Escape → List Str → Bytes → ℕ → Result ParseNameError Reader
read_char outside labels label c =
    if c == b'.'
    then end_label labels label
    else if c == b'\\'
    then ok (record { escape = slash; labels = labels; label = label })
    else ok (push labels label (encode_char c))
read_char slash labels label c =
    if is_ascii_digit c
    then ok (record { escape = digits 2 (c - b'0'); labels = labels; label = label })
    else ok (push labels label (encode_char c))
read_char (digits left octet) labels label c = read_digit left octet labels label (to_digit c)

-- The end of the characters.
unfoldable pub finish : Escape → List Str → Bytes → Result ParseNameError (List Str)
finish outside labels label = do l ← finish_label label; ok (labels ++ l ∷ [])
finish slash labels label = err dangling_escape
finish (digits left octet) labels label = err invalid_escape

unfoldable pub decode_from : Reader → Str → Result ParseNameError (List Str)
decode_from r [] = finish r.escape r.labels r.label
decode_from r (c ∷ cs) = do r' ← read_char r.escape r.labels r.label c; decode_from r' cs

abbrev pub start : Reader
start = record { escape = outside; labels = []; label = [] }

unfoldable pub decode_labels : Str → Result ParseNameError (List Str)
unfolding decode_from read_char finish finish_label
decode_labels name = decode_from start name

-- Whether the last label is empty, and the labels before the last.
abbrev pub last_is_empty : List Str → Bool
last_is_empty [] = false
last_is_empty (l ∷ []) = is_empty l
last_is_empty (l ∷ m ∷ ls) = last_is_empty (m ∷ ls)

abbrev pub pop : List Str → List Str
pop [] = []
pop (l ∷ []) = []
pop (l ∷ m ∷ ls) = l ∷ pop (m ∷ ls)

unfoldable pub classify_labels : List Str → Result ParseNameError (Unit {0})
classify_labels [] = ok tt
classify_labels (l ∷ ls) = do classify_owner_label l; classify_labels ls

-- The checks on the decoded labels.
unfoldable pub classify_name : List Str → Result ParseNameError (Unit {0})
unfolding classify_labels
classify_name labels = do classify_labels labels; classify_wire_len labels []

-- The labels behind the decoder, without the root's, and whether the root's was there.
unfoldable pub check_labels : List Str → Result ParseNameError (List Str × Bool)
unfolding classify_name
check_labels decoded = do
  let absolute = ltb 1 (length decoded) && last_is_empty decoded
  let labels = if absolute then pop decoded else decoded
  classify_name labels
  ok (labels, absolute)

unfoldable pub decode_name_labels : Str → Result ParseNameError (List Str × Bool)
unfolding check_labels decode_labels
decode_name_labels name = do decoded ← decode_labels name; check_labels decoded

-- `to_lookup_name` of dns/name/mod.rs
unfoldable pub to_lookup_name : Str → Result ParseNameError Str
to_lookup_name value =
    let trimmed = trim value in
    if is_empty (trim_end_dots trimmed)
    then err empty
    else if has_whitespace_or_control trimmed
    then err whitespace
    else do (labels, _) ← decode_name_labels trimmed; ok (join_labels labels)
