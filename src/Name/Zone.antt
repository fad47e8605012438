-- ===== src/Name/Zone.antt =====
-- `ZoneName` of dns/name/zone_name.rs.
pub mod Laws
pub mod Canonical
use bindizr.Base.{
  ℕ, Bool, true, false, List, [], ◌∷◌, ◌++◌, ltb, is_empty, if◌then◌else◌, Option, none, some,
  Result, ok, err, ◌>>=◌, ◌>>◌, ◌≡◌, ◌↔◌, refl,
}
use bindizr.Text.{Str, codes, to_ascii_lowercase, byte_len}
use bindizr.Text.Trim.{trim, trim_end_dots, strip_suffix}
use bindizr.Text.Split.{split}
use bindizr.Name.Label.{
  ParseNameError, empty, whitespace, too_long, max_domain_len, has_whitespace_or_control,
  classify_domain_label,
}

pub record ZoneName : Type 0 where
  pub text : Str

-- `strip_suffix('.').unwrap_or(s)`
abbrev pub strip_dot : Str → Str
strip_dot s = elim (strip_suffix b'.' s) [ none ↦ s | some t ↦ t ]

unfoldable pub classify_domain_labels : List Str → Result ParseNameError (Unit {0})
classify_domain_labels [] = ok tt
classify_domain_labels (l ∷ ls) = do classify_domain_label l false; classify_domain_labels ls

unfoldable pub parse_bare : Str → Result ParseNameError ZoneName
unfolding classify_domain_labels
parse_bare bare =
    if is_empty bare
    then err empty
    else if ltb max_domain_len (byte_len bare)
    then err too_long
    else do classify_domain_labels (split b'.' bare); ok (record { text = to_ascii_lowercase bare })

-- `ZoneName::parse`
unfoldable pub parse : Str → Result ParseNameError ZoneName
unfolding parse_bare
parse value =
    let trimmed = trim value in
    if is_empty trimmed
    then err empty
    else if has_whitespace_or_control trimmed
    then err whitespace
    else parse_bare (strip_dot trimmed)

-- `ZoneName::from_row`
unfoldable pub from_row : Str → ZoneName
from_row value = record { text = to_ascii_lowercase (trim_end_dots value) }

-- `ZoneName::labels`
unfoldable pub labels : ZoneName → List Str
labels zone = split b'.' zone.text

-- `to_fqdn` of dns/name/mod.rs, and `ZoneName::to_fqdn`
unfoldable pub to_fqdn_text : Str → Str
to_fqdn_text value = trim_end_dots value ++ codes "."

unfoldable pub to_fqdn : ZoneName → Str
unfolding to_fqdn_text
to_fqdn zone = to_fqdn_text zone.text
