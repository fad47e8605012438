-- ===== src/Name/Owner.antt =====
-- `OwnerName` of dns/name/owner_name.rs. The wrapped vector is the field `labels`.
pub mod Suffix
pub mod Laws
pub mod RoundTrip
use bindizr.Base.{
  ℕ, ◌-◌, Bool, true, false, ◌&&◌, List, [], ◌∷◌, ◌++◌, leb, is_empty, if◌then◌else◌, length, take,
  drop, Option, none, some, ap, Result, ok, err, ◌>>=◌, ◌>>◌, ok_or, ◌≡◌, refl, PartialEq, ◌==◌,
  list_eq, nat_eq, eq_refl, eq_of_beq, list_beq,
}
use mathlib.Core.Option
use bindizr.Text.{Str, codes, to_ascii_lowercase}
use bindizr.Text.Trim.{trim, trim_end_dots}
use bindizr.Name.Label.{
  ParseNameError, empty, outside_zone, classify_wire_len, escape_label, join_labels,
}
use bindizr.Name.Decode.{decode_name_labels}
use bindizr.Name.Zone
use bindizr.Name.Zone.{ZoneName}

pub record OwnerName : Type 0 where
  pub labels : List Str

-- The derived `PartialEq`.
abbrev pub owner_beq : OwnerName → OwnerName → Bool
owner_beq a b = a.labels == b.labels

instance abbrev pub owner_eq : PartialEq OwnerName
owner_eq = record {
  same = owner_beq;
  decides = λ a b. (
    λ h. ap (λ (ls : List Str). record { labels = ls }) (eq_of_beq a.labels b.labels h),
    λ e. (list_eq.decides a.labels b.labels).1 (ap (λ (o : OwnerName). o.labels) e),
  );
}

abbrev pub apex : OwnerName
apex = record { labels = [] }

abbrev pub is_apex : OwnerName → Bool
is_apex owner = is_empty owner.labels

-- How the apex is spelled in input.
abbrev pub apex_text : Str
apex_text = codes "@"

unfoldable pub is_label_suffix : List Str → List Str → Bool
is_label_suffix name suffix =
    leb (length suffix) (length name) && drop (length name - length suffix) name == suffix

unfoldable pub strip_zone_suffix : List Str → List Str → Option (List Str)
unfolding is_label_suffix
strip_zone_suffix name zone =
    if is_label_suffix name zone then some (take (length name - length zone) name) else none

-- A decoded name against its zone, as `parse_in_zone` decides.
unfoldable pub qualify : List Str → Bool → List Str → Result ParseNameError OwnerName
qualify labels absolute zone_labels = elim (strip_zone_suffix labels zone_labels) [
  | some owner ↦ ok (record { labels = owner })
  | none ↦
      if absolute
      then err outside_zone
      else do classify_wire_len labels zone_labels; ok (record { labels = labels })
]

unfoldable pub parse_in_zone : Str → ZoneName → Result ParseNameError OwnerName
unfolding qualify
parse_in_zone input zone =
    let trimmed = trim input in
    if is_empty (trim_end_dots trimmed)
    then err empty
    else if trimmed == apex_text
    then ok apex
    else do
      (labels, absolute) ← decode_name_labels trimmed
      qualify labels absolute (Zone.labels zone)

unfoldable pub parse_absolute_in_zone : Str → ZoneName → Result ParseNameError OwnerName
parse_absolute_in_zone input zone =
    let trimmed = trim input in
    if trimmed == apex_text then ok apex else do
      (labels, _) ← decode_name_labels trimmed
      owner ← ok_or outside_zone (strip_zone_suffix labels (Zone.labels zone))
      ok (record { labels = owner })

-- A row that cannot be decoded is one literal label.
unfoldable pub from_row : Str → OwnerName
from_row value = if is_empty value then apex else elim (decode_name_labels value) [
  | ok (labels, _) ↦ record { labels = labels }
  | err e ↦ record { labels = to_ascii_lowercase value ∷ [] }
]

-- `render_labels`: one label needs no join.
unfoldable pub render_labels : List Str → Str
render_labels (l ∷ []) = escape_label l
render_labels ls = join_labels ls

unfoldable pub to_stored : OwnerName → Str
unfolding render_labels
to_stored owner = if is_apex owner then [] else render_labels owner.labels

unfoldable pub to_fqdn : OwnerName → ZoneName → Str
unfolding render_labels Zone.to_fqdn
to_fqdn owner zone =
    if is_apex owner
    then Zone.to_fqdn zone
    else render_labels owner.labels ++ (codes "." ++ Zone.to_fqdn zone)

-- `Display`: presentation form.
unfoldable pub display : OwnerName → Str
unfolding render_labels
display owner = if is_apex owner then apex_text else render_labels owner.labels

unfoldable pub is_same_or_under : OwnerName → OwnerName → Bool
unfolding is_label_suffix
is_same_or_under owner other = is_label_suffix owner.labels other.labels
