-- ===== src/Name/Owner/Laws.antt =====
-- The owner names that a zone accepts.
use mathlib.Core.Path.{subst}
use bindizr.Base.{
  ◌≤◌, Bool, List, append-nil, some, Option-cases, ok, bind-eq-ok, ok-injective, All,
  All-append_left, Bool-cases, inl, inr, ◌≡◌, arith, is_empty, ◌==◌, nat_eq, list_eq, ok_or,
}
use bindizr.Text.{Str}
use bindizr.Text.Trim.{trim, trim_end_dots}
use bindizr.Name.Label.{outside_zone, IsOwnerLabel, wire_len, classify_wire_len}
use bindizr.Name.Decode.{decode_name_labels}
use bindizr.Name.Decode.Sound.{IsName, decode_name_labels_sound}
use bindizr.Name.Zone
use bindizr.Name.Zone.{ZoneName}
use bindizr.Name.Zone.Laws.{IsZoneName, labels-IsName}
use bindizr.Name.Owner.{
  OwnerName, apex, apex_text, strip_zone_suffix, qualify, parse_in_zone, parse_absolute_in_zone,
}
use bindizr.Name.Owner.Suffix.{strip_zone_suffix_sound}

-- An owner that fits in its zone: accepted labels, and at most 255 octets with the zone's.
pub record IsOwnerIn (z : ZoneName) (o : OwnerName) : Type 0 where
  pub labels : All IsOwnerLabel o.labels
  pub fits : wire_len o.labels (Zone.labels z) ≤ 255

apex-IsOwnerIn : (z : ZoneName) → IsZoneName z → IsOwnerIn z apex
apex-IsOwnerIn z h = record { labels = tt; fits = rw append-nil at ((labels-IsName z h).fits) }

stripped-IsOwnerIn :
    (z : ZoneName) (n : List Str) {o : List Str}
    → IsName n
    → strip_zone_suffix n (Zone.labels z) ≡ some o
    → IsOwnerIn z (record { labels = o })
stripped-IsOwnerIn z n {o} h e =
    let whole = strip_zone_suffix_sound n (Zone.labels z) e in
    record {
      labels = All-append_left IsOwnerLabel o (Zone.labels z) (rw whole h.labels);
      fits = rw whole (rw append-nil at (h.fits));
    }

qualify-IsOwnerIn :
    (z : ZoneName) (n : List Str) (b : Bool) {o : OwnerName}
    → IsName n
    → qualify n b (Zone.labels z) ≡ ok o
    → IsOwnerIn z o
unfolding qualify
qualify-IsOwnerIn z n b h e = elim (Option-cases (strip_zone_suffix n (Zone.labels z))) [
  | inr (o, stripped) ↦
      subst (IsOwnerIn z) (ok-injective (rw (stripped, qualify) at e))
        (stripped-IsOwnerIn z n h stripped)
  | inl outside ↦ elim (Bool-cases b) [
    | inl t ↦ cc (rw (outside, t, qualify) at e)
    | inr f ↦
        let (_, short, e') =
          bind-eq-ok (classify_wire_len n (Zone.labels z)) _ (rw (outside, f, qualify) at e) in
        subst (IsOwnerIn z) (ok-injective e')
          (record { labels = h.labels; fits = unfold classify_wire_len in ground arith })
  ]
]

-- Every owner that `parse_in_zone` accepts in a canonical zone fits in it, whether the input was `@`,
-- relative or absolute: accepted labels, and at most 255 octets on the wire with the zone's labels.
pub parse_in_zone-IsOwnerIn :
    (s : Str) (z : ZoneName) {o : OwnerName}
    → IsZoneName z
    → parse_in_zone s z ≡ ok o
    → IsOwnerIn z o
unfolding parse_in_zone
parse_in_zone-IsOwnerIn s z h e = elim (Bool-cases (is_empty (trim_end_dots (trim s)))) [
  | inl t ↦ cc (rw (t, parse_in_zone) at e)
  | inr f ↦ elim (Bool-cases (trim s == apex_text)) [
    | inl t ↦
        subst (IsOwnerIn z) (ok-injective (rw (f, t, parse_in_zone) at e)) (apex-IsOwnerIn z h)
    | inr g ↦
        let ((n, b), decoded, e') =
          bind-eq-ok (decode_name_labels (trim s)) _ (rw (f, g, parse_in_zone) at e) in
        qualify-IsOwnerIn z n b (decode_name_labels_sound (trim s) decoded) e'
  ]
]

-- Every owner that `parse_absolute_in_zone` accepts in a canonical zone fits in it: accepted labels,
-- and at most 255 octets on the wire with the zone's labels.
pub parse_absolute_in_zone-IsOwnerIn :
    (s : Str) (z : ZoneName) {o : OwnerName}
    → IsZoneName z
    → parse_absolute_in_zone s z ≡ ok o
    → IsOwnerIn z o
unfolding parse_absolute_in_zone
parse_absolute_in_zone-IsOwnerIn s z h e = elim (Bool-cases (trim s == apex_text)) [
  | inl t ↦
      subst (IsOwnerIn z) (ok-injective (rw (t, parse_absolute_in_zone) at e)) (apex-IsOwnerIn z h)
  | inr g ↦
      let ((n, b), decoded, e') =
        bind-eq-ok (decode_name_labels (trim s)) _ (rw (g, parse_absolute_in_zone) at e) in
      let (o, found, e'') =
        bind-eq-ok (ok_or outside_zone (strip_zone_suffix n (Zone.labels z))) _ e' in
      subst (IsOwnerIn z) (ok-injective e'')
        (stripped-IsOwnerIn z n (decode_name_labels_sound (trim s) decoded) (ground arith))
]
