-- ===== src/Name/Owner/RoundTrip.antt =====
-- The rendered forms of an owner, and the functions that read them.
use bindizr.Base.{
  ℕ, ◌≤◌, true, false, List, [], ◌∷◌, ◌++◌, append-nil, append_assoc, none, ok, All, All-append,
  All-imp, Bool-cases, inl, inr, ◌≡◌, ◌≢◌, refl, sym, ap, ◌∙◌, arith, is_empty, ne-is_empty,
  List-cases, append-ne-nil, ◌==◌, nat_eq, list_eq,
}
use bindizr.Text.{Str, codes, is_whitespace}
use bindizr.Text.Trim.{trim, trim-Lacks, trim_start_by, trim_end_by, trim_end_dots, is_dot}
use bindizr.Text.Split.{join}
use bindizr.Name.Label.{
  IsOwnerLabel, join_labels, escape_label, labels_len-append, wire_len, classify_wire_len,
  has_whitespace_or_control, is_whitespace_or_control, escaped_in_label, escape_chars,
  escape_label-eq-escape_chars,
}
use bindizr.Name.Decode.{decode_name_labels}
use bindizr.Name.Decode.RoundTrip.{
  decode_name_labels-join_labels, decode_name_labels-join_labels_dot, join_labels-cons,
  join_labels_one,
}
use bindizr.Name.Decode.Sound.{IsName}
use bindizr.Name.Zone
use bindizr.Name.Zone.{ZoneName}
use bindizr.Name.Zone.Laws.{IsZoneName, labels-IsName, join_labels-labels}
use bindizr.Name.Zone.Canonical.{to_fqdn_lem as zone_fqdn}
use bindizr.Name.Owner.{
  OwnerName, apex_text, strip_zone_suffix, qualify, parse_in_zone, parse_absolute_in_zone, from_row,
  render_labels, to_stored, to_fqdn, display,
}
use bindizr.Name.Owner.Suffix.{strip_zone_suffix-append}
use bindizr.Name.Owner.Laws.{IsOwnerIn}

-- The fast path for one label changes nothing.
render_labels-eq-join_labels : (ls : List Str) → render_labels ls ≡ join_labels ls
unfolding render_labels
render_labels-eq-join_labels [] = refl
render_labels-eq-join_labels (l ∷ []) = sym (join_labels_one l)
render_labels-eq-join_labels (l ∷ m ∷ ls) = refl

join_labels-append :
    (l m : Str) (ls ms : List Str)
    → join_labels ((l ∷ ls) ++ (m ∷ ms)) ≡ join_labels (l ∷ ls) ++ (b'.' ∷ join_labels (m ∷ ms))
join_labels-append l m [] ms = join_labels-cons l m ms ∙ rw join_labels_one
join_labels-append l m (k ∷ ls) ms =
    rw (join_labels-cons l k ls, join_labels-cons l k (ls ++ m ∷ ms), join_labels-append k m ls ms)
      (sym
        (append_assoc (escape_label l) (b'.' ∷ join_labels (k ∷ ls)) (b'.' ∷ join_labels (m ∷ ms))))

-- A text that no caller takes for `@`, for the root or for a text to trim.
record IsPlainName (s : Str) : Type 0 where
  trimmed : trim s ≡ s
  not_root : is_empty (trim_end_dots s) ≡ false
  not_apex : (s == apex_text) ≡ false
  not_empty : is_empty s ≡ false

abbrev pub IsVisible : ℕ → Type 0
IsVisible c = is_whitespace_or_control c ≡ false

IsVisible-label : (l : Str) → has_whitespace_or_control l ≡ false → All IsVisible (escape_chars l)
unfolding escape_chars is_whitespace
IsVisible-label [] h = tt
IsVisible-label (c ∷ l) h = ground (arith, IsVisible-label l)

pub IsVisible-labels : (ls : List Str) → All IsOwnerLabel ls → All IsVisible (join_labels ls)
IsVisible-labels [] h = unfold join_labels join in tt
IsVisible-labels (l ∷ []) h =
    rw (join_labels_one l, escape_label-eq-escape_chars l) (IsVisible-label l h.0.clean)
IsVisible-labels (l ∷ m ∷ ls) h =
    rw (join_labels-cons l m ls, escape_label-eq-escape_chars l)
      (All-append IsVisible (escape_chars l) (b'.' ∷ join_labels (m ∷ ls))
        (IsVisible-label l h.0.clean) (unfold is_whitespace in refl, IsVisible-labels (m ∷ ls) h.1))

-- The first character of a rendered name is neither a dot nor `@`.
data Starts (s : Str) : Type 0 where
  with_char : (d : ℕ) (r : Str) → s ≡ d ∷ r → is_dot d ≡ false → (d == b'@') ≡ false → Starts s

Starts-append : {s : Str} (t : Str) → Starts s → Starts (s ++ t)
Starts-append t (with_char d r e dot at_sign) =
    with_char d (r ++ t) (ap (λ u. u ++ t) e) dot at_sign

escape_chars-Starts : (l : Str) → l ≢ [] → Starts (escape_chars l)
unfolding escape_chars escaped_in_label
escape_chars-Starts [] h = absurd (h refl)
escape_chars-Starts (c ∷ l) h = elim (Bool-cases (escaped_in_label c)) [
  | inl t ↦ with_char b'\\' (c ∷ escape_chars l) (ground arith) refl refl
  | inr f ↦ with_char c (escape_chars l) (ground arith) (ground arith) (ground arith)
]

join_labels-Starts : (ls : List Str) → ls ≢ [] → All IsOwnerLabel ls → Starts (join_labels ls)
join_labels-Starts [] ne h = absurd (ne refl)
join_labels-Starts (l ∷ []) ne h =
    rw (join_labels_one l, escape_label-eq-escape_chars l) (escape_chars-Starts l h.0.nonempty)
join_labels-Starts (l ∷ m ∷ ls) ne h =
    rw (join_labels-cons l m ls, escape_label-eq-escape_chars l)
      (Starts-append (b'.' ∷ join_labels (m ∷ ls)) (escape_chars-Starts l h.0.nonempty))

Starts-not_root : (s : Str) → Starts s → is_empty (trim_end_dots s) ≡ false
unfolding trim_end_by
Starts-not_root s (with_char d r e dot at_sign) = rw e (ground arith)

Starts-not_apex : (s : Str) → Starts s → (s == apex_text) ≡ false
Starts-not_apex s (with_char d r e dot at_sign) = rw (e, at_sign)

Starts-not_empty : (s : Str) → Starts s → is_empty s ≡ false
Starts-not_empty s (with_char d r e dot at_sign) = rw e

Starts-IsPlainName : (s : Str) → All IsVisible s → Starts s → IsPlainName s
Starts-IsPlainName s visible starts = record {
  trimmed =
      trim-Lacks s
        (All-imp IsVisible (λ c. is_whitespace c ≡ false) (λ c v. ground arith) s visible);
  not_root = Starts-not_root s starts;
  not_apex = Starts-not_apex s starts;
  not_empty = Starts-not_empty s starts;
}

join_labels-IsPlainName : (ls : List Str) → IsName ls → IsPlainName (join_labels ls)
join_labels-IsPlainName ls h =
    Starts-IsPlainName (join_labels ls) (IsVisible-labels ls h.labels)
      (join_labels-Starts ls h.nonempty h.labels)

dotted-IsPlainName : (ls : List Str) → IsName ls → IsPlainName (join_labels ls ++ codes ".")
dotted-IsPlainName ls h =
    Starts-IsPlainName (join_labels ls ++ codes ".")
      (All-append IsVisible (join_labels ls) (codes ".") (IsVisible-labels ls h.labels)
        (unfold is_whitespace in refl, tt))
      (Starts-append (codes ".") (join_labels-Starts ls h.nonempty h.labels))

-- The labels of an owner with those of its zone.
whole-IsName :
    (z : ZoneName) (o : OwnerName)
    → IsZoneName z
    → IsOwnerIn z o
    → IsName (o.labels ++ Zone.labels z)
whole-IsName z o h k = record {
  nonempty = append-ne-nil o.labels (Zone.labels z) (labels-IsName z h).nonempty;
  labels = All-append IsOwnerLabel o.labels (Zone.labels z) k.labels (labels-IsName z h).labels;
  fits = rw append-nil k.fits;
}

join_two :
    (ls ms : List Str)
    → ls ≢ []
    → ms ≢ []
    → join_labels (ls ++ ms) ≡ join_labels ls ++ (b'.' ∷ join_labels ms)
join_two [] ms h k = absurd (h refl)
join_two (l ∷ ls) [] h k = absurd (k refl)
join_two (l ∷ ls) (m ∷ ms) h k = join_labels-append l m ls ms

-- The absolute form is the rendering of those labels and a dot.
to_fqdn_lem :
    (z : ZoneName) (o : OwnerName)
    → IsZoneName z
    → to_fqdn o z ≡ join_labels (o.labels ++ Zone.labels z) ++ codes "."
unfolding to_fqdn
to_fqdn_lem z o h = elim (List-cases o.labels) [
  | inl nil ↦ rw (nil, zone_fqdn z h, join_labels-labels z h)
  | inr ne ↦
      rw (ne-is_empty o.labels ne, render_labels-eq-join_labels o.labels, zone_fqdn z h)
        (rw
          (
            join_two o.labels (Zone.labels z) ne (labels-IsName z h).nonempty,
            join_labels-labels z h,
          )
          (sym (append_assoc (join_labels o.labels) (b'.' ∷ z.text) (codes "."))))
]

module _ (z : ZoneName) (o : OwnerName) (h : IsZoneName z) (k : IsOwnerIn z o) where
  decode-to_fqdn : decode_name_labels (to_fqdn o z) ≡ ok (o.labels ++ Zone.labels z, true)
  decode-to_fqdn =
      let n = whole-IsName z o h k in
      rw (to_fqdn_lem z o h)
        (decode_name_labels-join_labels_dot (o.labels ++ Zone.labels z) n.nonempty n.labels n.fits)

  to_fqdn-IsPlainName : IsPlainName (to_fqdn o z)
  to_fqdn-IsPlainName =
      rw (to_fqdn_lem z o h) (dotted-IsPlainName (o.labels ++ Zone.labels z) (whole-IsName z o h k))

  -- For a canonical zone name and an owner that fits in it, `parse_absolute_in_zone` reads the
  -- absolute form back to the owner.
  pub parse_absolute_in_zone-to_fqdn : parse_absolute_in_zone (to_fqdn o z) z ≡ ok o
  unfolding parse_absolute_in_zone
  parse_absolute_in_zone-to_fqdn =
      let p = to_fqdn-IsPlainName in
      rw (p.trimmed, p.not_apex, decode-to_fqdn, strip_zone_suffix-append o.labels (Zone.labels z))

  -- For a canonical zone name and an owner that fits in it, `parse_in_zone` reads the absolute form
  -- back to the owner.
  pub parse_in_zone-to_fqdn : parse_in_zone (to_fqdn o z) z ≡ ok o
  unfolding parse_in_zone
  parse_in_zone-to_fqdn =
      let p = to_fqdn-IsPlainName in
      rw (p.trimmed, p.not_root, p.not_apex, decode-to_fqdn)
        (unfold qualify in rw (strip_zone_suffix-append o.labels (Zone.labels z), qualify))

  labels_fit : wire_len o.labels [] ≤ 255
  labels_fit = rw append-nil (omega (arith, labels_len-append o.labels (Zone.labels z), k.fits))

pub from_row-join_labels :
    (ls : List Str) → IsName ls → from_row (join_labels ls) ≡ record { labels = ls }
unfolding from_row
from_row-join_labels ls h =
    rw ((join_labels-IsPlainName ls h).not_empty)
      (rw (decode_name_labels-join_labels ls h.nonempty h.labels h.fits, from_row))

stored_labels :
    (ls : List Str)
    → All IsOwnerLabel ls
    → wire_len ls [] ≤ 255
    → from_row (to_stored (record { labels = ls })) ≡ record { labels = ls }
stored_labels [] h fits = unfold from_row to_stored in refl
stored_labels (l ∷ ls) h fits =
    unfold to_stored in
    rw (render_labels-eq-join_labels (l ∷ ls))
      (from_row-join_labels (l ∷ ls) (record { nonempty = λ e. cc; labels = h; fits = fits }))

-- For an owner that fits in a canonical zone, `from_row` reads the stored form back to the owner.
pub from_row-to_stored :
    (z : ZoneName) (o : OwnerName) → IsZoneName z → IsOwnerIn z o → from_row (to_stored o) ≡ o
from_row-to_stored z o h k = stored_labels o.labels k.labels (labels_fit z o h k)

display_labels :
    (z : ZoneName) (ls : List Str)
    → All IsOwnerLabel ls
    → wire_len ls [] ≤ 255
    → wire_len ls (Zone.labels z) ≤ 255
    → strip_zone_suffix ls (Zone.labels z) ≡ none
    → parse_in_zone (display (record { labels = ls })) z ≡ ok (record { labels = ls })
unfolding parse_in_zone
display_labels z [] h fits whole e =
    unfold display trim trim_start_by trim_end_by is_whitespace in refl
display_labels z (l ∷ ls) h fits whole e =
    let p =
      join_labels-IsPlainName (l ∷ ls) (record { nonempty = λ e. cc; labels = h; fits = fits }) in
    unfold display in
    rw
      (
        render_labels-eq-join_labels (l ∷ ls),
        p.trimmed,
        p.not_root,
        p.not_apex,
        decode_name_labels-join_labels (l ∷ ls) (λ e. cc) h fits,
      )
      (unfold qualify classify_wire_len in rw (e, qualify) (ground arith))

-- For an owner that fits in a canonical zone, and whose labels do not end in the zone's,
-- `parse_in_zone` reads the presentation form back to the owner.
pub parse_in_zone-display :
    (z : ZoneName) (o : OwnerName)
    → IsZoneName z
    → IsOwnerIn z o
    → strip_zone_suffix o.labels (Zone.labels z) ≡ none
    → parse_in_zone (display o) z ≡ ok o
parse_in_zone-display z o h k e = display_labels z o.labels k.labels (labels_fit z o h k) k.fits e
