-- ===== src/Record/Value.antt =====
-- Fields of stored values: dns/record/value.rs and the parsers of the one-name types. The error texts are not modelled: an error says which check failed.
use bindizr.Base.{
  ℕ, Bool, true, List, [], ◌∷◌, ◌++◌, Option, none, some, ltb, nat_eq, ◌==◌, list_eq, if◌then◌else◌,
  is_empty, Result, ok, err, ◌>>◌, ok_or, ℤ, pos, negsuc,
}
use bindizr.Text.{Str, codes, byte_len, to_ascii_lowercase}
use bindizr.Text.Trim.{trim, trim_end_dots}
use bindizr.Text.Split.{split}
use bindizr.Text.Number.{parse_unsigned}
use bindizr.Name.Label.{
  ParseNameError, max_domain_len, has_whitespace_or_control, classify_domain_label,
}
use bindizr.Name.Zone.{strip_dot}
use bindizr.Record.Kind.{type_eq}

pub data ValueError : Type 0 where
  takes_no_priority bad_ipv4 bad_ipv6 bad_fields priority_out_of_range bad_number : ValueError
  empty_name unclean_name root_name long_name null_mx_priority : ValueError
  bad_label : ParseNameError → ValueError

abbrev pub max_u16 : ℕ
max_u16 = 0xFFFF

abbrev pub max_u32 : ℕ
max_u32 = 0xFFFFFFFF

-- `str::parse::<Ipv4Addr>()` and `::<Ipv6Addr>()` of the standard library, each with the address's
-- `to_string` behind it. Of them the library relies on nothing.
pub record IpText : Type 0 where
  pub ipv4 : Str → Option Str
  pub ipv6 : Str → Option Str

-- `u16::try_from` of an `i32`.
abbrev pub u16_try_from : ℤ → Option ℕ
u16_try_from (pos n) = if ltb max_u16 n then none else some n
u16_try_from (negsuc n) = none

abbrev unwrap_or_10 : Option ℤ → ℤ
unwrap_or_10 none = pos 10
unwrap_or_10 (some n) = n

unfoldable pub parse_optional_u16_record_field : Option ℤ → Result ValueError ℕ
parse_optional_u16_record_field value =
    ok_or priority_out_of_range (u16_try_from (unwrap_or_10 value))

abbrev pub parse_u16_record_field : Str → Result ValueError ℕ
parse_u16_record_field s = ok_or bad_number (parse_unsigned max_u16 s)

abbrev pub parse_u32_record_field : Str → Result ValueError ℕ
parse_u32_record_field s = ok_or bad_number (parse_unsigned max_u32 s)

-- `validate_domain_label`: the label's problem, phrased by the caller.
unfoldable pub validate_domain_label : Str → Bool → Result ValueError (Unit {0})
validate_domain_label l allow_underscore = elim (classify_domain_label l allow_underscore) [
  | ok u ↦ ok tt
  | err e ↦ err (bad_label e)
]

unfoldable pub validate_domain_labels : List Str → Result ValueError (Unit {0})
unfolding validate_domain_label
validate_domain_labels [] = ok tt
validate_domain_labels (l ∷ ls) = do validate_domain_label l true; validate_domain_labels ls

unfoldable pub validate_domain_record_value : Str → Result ValueError (Unit {0})
unfolding validate_domain_labels
validate_domain_record_value value =
    let trimmed = trim value in
    let without_trailing_dot = strip_dot trimmed in
    if is_empty trimmed
    then err empty_name
    else if has_whitespace_or_control value
    then err unclean_name
    else if is_empty without_trailing_dot
    then err root_name
    else if ltb max_domain_len (byte_len without_trailing_dot)
    then err long_name
    else validate_domain_labels (split b'.' without_trailing_dot)

-- `to_fqdn_lowercase` of dns/name/mod.rs
unfoldable pub to_fqdn_lowercase : Str → Str
to_fqdn_lowercase value = to_ascii_lowercase (trim_end_dots (trim value)) ++ codes "."

-- A target that stands for "no service".
abbrev pub is_root : Str → Bool
is_root target = trim target == codes "."
