-- ===== src/Name/Label.antt =====
-- The limits, the label checks and the escapes of dns/name/mod.rs, error.rs and owner_name.rs.
use bindizr.Base.{
  ℕ, ◌+◌, ◌≤◌, Bool, false, not, ◌&&◌, ◌||◌, List, [], ◌∷◌, ◌++◌, map, ltb, nat_eq, ◌==◌,
  if◌then◌else◌, is_empty, any, all, All, Result, ok, err, ◌≡◌, ◌≢◌, refl, arith, list_eq,
}
use bindizr.Text.{
  Str, codes, IsScalar, is_ascii_control, is_whitespace, is_ascii_alphanumeric, lower, byte_len,
}
use bindizr.Text.Split.{join}

pub data ParseNameError : Type 0 where
  empty whitespace too_long empty_label label_too_long : ParseNameError
  label_charset : (underscore_allowed : Bool) → ParseNameError
  label_hyphen dangling_escape invalid_escape non_utf8_label outside_zone : ParseNameError

abbrev pub max_dns_label_len : ℕ
max_dns_label_len = 63

abbrev pub max_domain_len : ℕ
max_domain_len = 253

abbrev pub is_whitespace_or_control : ℕ → Bool
is_whitespace_or_control c = is_ascii_control c || is_whitespace c

abbrev pub has_whitespace_or_control : Str → Bool
has_whitespace_or_control = any is_whitespace_or_control

abbrev pub is_ldh : Bool → ℕ → Bool
is_ldh allow_underscore c = is_ascii_alphanumeric c || c == b'-' || allow_underscore && c == b'_'

-- `ends_with('-')`
abbrev pub ends_with : ℕ → Str → Bool
ends_with d [] = false
ends_with d (c ∷ []) = c == d
ends_with d (c ∷ e ∷ s) = ends_with d (e ∷ s)

-- `starts_with('-')`
abbrev pub starts_with : ℕ → Str → Bool
starts_with d [] = false
starts_with d (c ∷ s) = c == d

-- The LDH check of zone names and record targets.
unfoldable pub classify_domain_label : Str → Bool → Result ParseNameError (Unit {0})
classify_domain_label label allow_underscore =
    if is_empty label
    then err empty_label
    else if ltb max_dns_label_len (byte_len label)
    then err label_too_long
    else if not (all (is_ldh allow_underscore) label)
    then err (label_charset allow_underscore)
    else if starts_with b'-' label || ends_with b'-' label
    then err label_hyphen
    else ok tt

-- The check of owner names, which may hold any character but whitespace and control characters.
unfoldable pub classify_owner_label : Str → Result ParseNameError (Unit {0})
classify_owner_label label =
    if is_empty label
    then err empty_label
    else if ltb max_dns_label_len (byte_len label)
    then err label_too_long
    else if has_whitespace_or_control label
    then err whitespace
    else ok tt

-- One length octet for each label.
abbrev pub labels_len : List Str → ℕ
labels_len [] = 0
labels_len (l ∷ ls) = byte_len l + 1 + labels_len ls

pub labels_len-append : (xs ys : List Str) → labels_len (xs ++ ys) ≡ labels_len xs + labels_len ys
labels_len-append [] ys = omega arith
labels_len-append (x ∷ xs) ys = omega (arith, labels_len-append xs ys)

-- The octets of the wire form: the labels of `owner` and `zone`, and the root's zero.
abbrev pub wire_len : List Str → List Str → ℕ
wire_len owner zone = labels_len (owner ++ zone) + 1

unfoldable pub classify_wire_len : List Str → List Str → Result ParseNameError (Unit {0})
classify_wire_len owner zone =
    if ltb (max_domain_len + 2) (wire_len owner zone) then err too_long else ok tt

unfoldable pub escaped_in_label : ℕ → Bool
escaped_in_label c =
    c == b'.'
    || c == b'\\'
    || c == b'@'
    || c == b';'
    || c == b'('
    || c == b')'
    || c == b'"'
    || c == b'$'

unfoldable pub escape_chars : Str → Str
escape_chars [] = []
escape_chars (c ∷ s) =
    let rest = escape_chars s in if escaped_in_label c then b'\\' ∷ c ∷ rest else c ∷ rest

unfoldable pub escape_label : Str → Str
escape_label label = if not (any escaped_in_label label) then label else escape_chars label

-- Render decoded labels.
unfoldable pub join_labels : List Str → Str
join_labels labels = join (codes ".") (map escape_label labels)

-- The fast path of `escape_label` changes nothing.
pub escape_label-eq-escape_chars : (s : Str) → escape_label s ≡ escape_chars s
unfolding escape_label escape_chars
escape_label-eq-escape_chars [] = refl
escape_label-eq-escape_chars (c ∷ s) = ground (arith, escape_label-eq-escape_chars s)

-- What an accepted owner label satisfies.
pub record IsOwnerLabel (l : Str) : Type 0 where
  pub nonempty : l ≢ []
  pub short : byte_len l ≤ 63
  pub clean : has_whitespace_or_control l ≡ false
  pub lowercase : map lower l ≡ l
  pub scalars : All IsScalar l

pub classify_owner_label_complete : (l : Str) → IsOwnerLabel l → classify_owner_label l ≡ ok tt
unfolding classify_owner_label
classify_owner_label_complete [] h = absurd (h.nonempty refl)
classify_owner_label_complete (c ∷ l) h = ground (arith, h.short, h.clean)

pub classify_owner_label_sound :
    (l : Str)
    → classify_owner_label l ≡ ok tt
    → (l ≢ []) × (byte_len l ≤ 63) × (has_whitespace_or_control l ≡ false)
unfolding classify_owner_label
classify_owner_label_sound [] h = ground arith
classify_owner_label_sound (c ∷ l) h = ground arith
