-- ===== src/Examples/Names.antt =====
-- Names of the zone `example.com`.
use bindizr.Base.{false, [], ◌∷◌, none, ok, ◌≡◌, refl}
use bindizr.Text.{Str, codes}
use bindizr.Name.Label.{IsOwnerLabel, join_labels, wire_len}
use bindizr.Name.Decode.{decode_name_labels}
use bindizr.Name.Decode.RoundTrip.{decode_name_labels-join_labels}
use bindizr.Name.Decode.Sound.{IsName, decode_name_labels_sound}
use bindizr.Name.Zone
use bindizr.Name.Zone.{ZoneName}
use bindizr.Name.Zone.Laws.{IsZoneName, parse-IsZoneName, decode_name_labels-text}
use bindizr.Name.Zone.Canonical.{parse-text}
use bindizr.Name.Owner.{
  OwnerName, from_row, to_stored, to_fqdn, display, strip_zone_suffix, parse_in_zone,
  parse_absolute_in_zone,
}
use bindizr.Name.Owner.Laws.{IsOwnerIn, parse_in_zone-IsOwnerIn, parse_absolute_in_zone-IsOwnerIn}
use bindizr.Name.Owner.RoundTrip.{
  parse_absolute_in_zone-to_fqdn, parse_in_zone-to_fqdn, from_row-to_stored, parse_in_zone-display,
}

abbrev pub example_com : ZoneName
example_com = record { text = codes "example.com" }

example_com-parsed : Zone.parse (codes " Example.COM. ") ≡ ok example_com
unfolding Zone.parse bindizr.Text.Trim.trim bindizr.Text.Trim.trim_end_by
    bindizr.Text.Trim.trim_start_by bindizr.Text.is_whitespace bindizr.Text.Trim.strip_suffix
    bindizr.Text.len_utf8 bindizr.Text.Split.split bindizr.Name.Label.classify_domain_label
    bindizr.Text.is_ascii_alphanumeric bindizr.Text.lower
example_com-parsed = refl

abbrev pub www : OwnerName
www = record { labels = codes "www" ∷ [] }

-- A label that holds a dot.
abbrev first_last : OwnerName
first_last = record { labels = codes "first.last" ∷ codes "dev" ∷ [] }

first_last-parsed : parse_in_zone (codes "First\\.Last.dev") example_com ≡ ok first_last
unfolding parse_in_zone bindizr.Text.Trim.trim_end_by bindizr.Text.Trim.trim
    bindizr.Text.Trim.trim_start_by bindizr.Text.is_whitespace decode_name_labels
    bindizr.Text.Utf8.from_utf8 bindizr.Text.Utf8.encode_char
    bindizr.Name.Label.classify_owner_label bindizr.Text.len_utf8 bindizr.Text.lower
    bindizr.Name.Label.classify_wire_len strip_zone_suffix Zone.labels bindizr.Text.Split.split
first_last-parsed = refl

pub www-parsed : parse_absolute_in_zone (codes "WWW.example.com.") example_com ≡ ok www
unfolding parse_absolute_in_zone bindizr.Text.Trim.trim bindizr.Text.Trim.trim_end_by
    bindizr.Text.Trim.trim_start_by bindizr.Text.is_whitespace decode_name_labels
    bindizr.Text.Utf8.from_utf8 bindizr.Text.Utf8.encode_char
    bindizr.Name.Label.classify_owner_label bindizr.Text.len_utf8 bindizr.Text.lower
    bindizr.Name.Label.classify_wire_len strip_zone_suffix Zone.labels bindizr.Text.Split.split
www-parsed = refl

pub example_com-IsZoneName : IsZoneName example_com
example_com-IsZoneName = parse-IsZoneName (codes " Example.COM. ") example_com-parsed

first_last-IsOwnerIn : IsOwnerIn example_com first_last
first_last-IsOwnerIn =
    parse_in_zone-IsOwnerIn (codes "First\\.Last.dev") example_com example_com-IsZoneName
      first_last-parsed

parse-IsZoneName_example : IsZoneName example_com
parse-IsZoneName_example = parse-IsZoneName (codes " Example.COM. ") example_com-parsed

parse_in_zone-IsOwnerIn_example : IsOwnerIn example_com first_last
parse_in_zone-IsOwnerIn_example =
    parse_in_zone-IsOwnerIn (codes "First\\.Last.dev") example_com example_com-IsZoneName
      first_last-parsed

parse_absolute_in_zone-IsOwnerIn_example : IsOwnerIn example_com www
parse_absolute_in_zone-IsOwnerIn_example =
    parse_absolute_in_zone-IsOwnerIn (codes "WWW.example.com.") example_com example_com-IsZoneName
      www-parsed

parse_absolute_in_zone-to_fqdn_example :
    parse_absolute_in_zone (to_fqdn first_last example_com) example_com ≡ ok first_last
parse_absolute_in_zone-to_fqdn_example =
    parse_absolute_in_zone-to_fqdn example_com first_last example_com-IsZoneName
      first_last-IsOwnerIn

parse_in_zone-to_fqdn_example :
    parse_in_zone (to_fqdn first_last example_com) example_com ≡ ok first_last
parse_in_zone-to_fqdn_example =
    parse_in_zone-to_fqdn example_com first_last example_com-IsZoneName first_last-IsOwnerIn

from_row-to_stored_example : from_row (to_stored first_last) ≡ first_last
from_row-to_stored_example =
    from_row-to_stored example_com first_last example_com-IsZoneName first_last-IsOwnerIn

relative_first_last : strip_zone_suffix first_last.labels (Zone.labels example_com) ≡ none
unfolding strip_zone_suffix Zone.labels bindizr.Text.Split.split
relative_first_last = refl

parse_in_zone-display_example : parse_in_zone (display first_last) example_com ≡ ok first_last
parse_in_zone-display_example =
    parse_in_zone-display example_com first_last example_com-IsZoneName first_last-IsOwnerIn
      relative_first_last

parse-text_example : Zone.parse (codes "example.com") ≡ ok example_com
parse-text_example = parse-text example_com example_com-IsZoneName

decode_name_labels-text_example :
    decode_name_labels (codes "example.com") ≡ ok (Zone.labels example_com, false)
decode_name_labels-text_example = decode_name_labels-text example_com example_com-IsZoneName

first_last-decoded : decode_name_labels (codes "first\\046Last.dev") ≡ ok (first_last.labels, false)
unfolding decode_name_labels bindizr.Text.Utf8.from_utf8 bindizr.Text.Utf8.encode_char
    bindizr.Name.Label.classify_owner_label bindizr.Text.len_utf8 bindizr.Text.lower
    bindizr.Text.is_whitespace bindizr.Name.Label.classify_wire_len
first_last-decoded = refl

decode_name_labels_sound_example : IsName first_last.labels
decode_name_labels_sound_example =
    decode_name_labels_sound (codes "first\\046Last.dev") first_last-decoded

first_last-IsName : IsName first_last.labels
first_last-IsName = decode_name_labels_sound (codes "first\\046Last.dev") first_last-decoded

decode_name_labels-join_labels_example :
    decode_name_labels (join_labels first_last.labels) ≡ ok (first_last.labels, false)
decode_name_labels-join_labels_example =
    decode_name_labels-join_labels first_last.labels first_last-IsName.nonempty
      first_last-IsName.labels first_last-IsName.fits
