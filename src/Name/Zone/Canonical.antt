-- ===== src/Name/Zone/Canonical.antt =====
-- The text of a canonical zone name, and its parse.
use mathlib.Core.Path.{subst}
use bindizr.Base.{
  ℕ, false, List, [], ◌∷◌, ◌++◌, none, ok, All, All-imp, ◌≡◌, ◌≢◌, refl, ap, arith, ne-is_empty,
  append-ne-nil, nat_eq,
}
use bindizr.Text.{Str, codes, is_whitespace}
use bindizr.Text.Trim.{
  trim-Lacks, Lacks, trim_end_by-Lacks, trim_end_by-append, strip_suffix-trim_end_by, strip_suffix,
  is_dot, trim_end_dots,
}
use bindizr.Text.Split.{split, split-ne-nil, join, join-split, All-join}
use bindizr.Name.Label.{escaped_in_label, has_whitespace_or_control, is_whitespace_or_control}
use bindizr.Name.Zone.{ZoneName, parse_bare, parse, labels, to_fqdn, strip_dot}
use bindizr.Name.Zone.Laws.{
  IsZoneLabel, IsZoneName, IsPlain, IsPlainLabel, IsZoneLabel-IsPlainLabel,
  classify_domain_labels_complete,
}

abbrev IsVisible : ℕ → Type 0
IsVisible c = is_whitespace_or_control c ≡ false

IsVisible-labels : (ls : List Str) → All IsZoneLabel ls → All (All IsVisible) ls
IsVisible-labels [] h = tt
IsVisible-labels (l ∷ ls) h = (
  All-imp IsPlain IsVisible (λ c q. q.visible) l (IsZoneLabel-IsPlainLabel l h.0).plain,
  IsVisible-labels ls h.1,
)

-- No character of a zone name is whitespace or a control character.
pub text-IsVisible : (z : ZoneName) → IsZoneName z → All IsVisible z.text
text-IsVisible z h = subst (All IsVisible) (join-split b'.' z.text) (
    All-join IsVisible (codes ".") (split b'.' z.text) (unfold is_whitespace in refl, tt)
      (IsVisible-labels (split b'.' z.text) (unfold labels in h.ldh)))

IsPlain-ne-dot : (c : ℕ) → IsPlain c → is_dot c ≡ false
unfolding escaped_in_label
IsPlain-ne-dot c h = ground (arith, h.unescaped)

no_dots : (l : Str) → IsPlainLabel l → Lacks is_dot l
no_dots l h = All-imp IsPlain (λ c. is_dot c ≡ false) IsPlain-ne-dot l h.plain

record EndsInLabel (s : Str) : Type 0 where
  kept : trim_end_dots s ≡ s
  nonempty : s ≢ []

join-EndsInLabel :
    (ls : List Str) → ls ≢ [] → All IsZoneLabel ls → EndsInLabel (join (codes ".") ls)
unfolding join
join-EndsInLabel [] ne h = absurd (ne refl)
join-EndsInLabel (l ∷ []) ne h =
    let p = IsZoneLabel-IsPlainLabel l h.0 in
    record { kept = trim_end_by-Lacks is_dot l (no_dots l p); nonempty = p.nonempty }
join-EndsInLabel (l ∷ m ∷ ls) ne h =
    let rest = join-EndsInLabel (m ∷ ls) (λ e. cc) h.1 in
    let dotted =
      trim_end_by-append is_dot (codes ".") (join (codes ".") (m ∷ ls)) rest.nonempty rest.kept in
    record {
      kept = trim_end_by-append is_dot l (b'.' ∷ join (codes ".") (m ∷ ls)) (λ e. cc) dotted;
      nonempty = append-ne-nil l (b'.' ∷ join (codes ".") (m ∷ ls)) (λ e. cc);
    }

-- A zone name is not empty and does not end in a dot.
text-EndsInLabel : (z : ZoneName) → IsZoneName z → EndsInLabel z.text
text-EndsInLabel z h =
    subst EndsInLabel (join-split b'.' z.text)
      (join-EndsInLabel (split b'.' z.text) (split-ne-nil b'.' z.text) (unfold labels in h.ldh))

pub text-ne-nil : (z : ZoneName) → IsZoneName z → z.text ≢ []
text-ne-nil z h = (text-EndsInLabel z h).nonempty

-- The absolute form of a zone name is its text and one dot.
pub to_fqdn_lem : (z : ZoneName) → IsZoneName z → to_fqdn z ≡ z.text ++ codes "."
unfolding to_fqdn
to_fqdn_lem z h = ap (λ t. t ++ codes ".") (text-EndsInLabel z h).kept

visible-Lacks : (s : Str) → All IsVisible s → Lacks is_whitespace s
visible-Lacks s h = All-imp IsVisible (λ c. is_whitespace c ≡ false) (λ c v. ground arith) s h

visible-any : (s : Str) → All IsVisible s → has_whitespace_or_control s ≡ false
visible-any [] h = refl
visible-any (c ∷ s) h = ground (arith, h.0, visible-any s h.1)

parse_bare-text : (z : ZoneName) → IsZoneName z → parse_bare z.text ≡ ok z
unfolding parse_bare
parse_bare-text z h =
    let classified = classify_domain_labels_complete (split b'.' z.text) (unfold labels in h.ldh) in
    rw (ne-is_empty z.text (text-ne-nil z h), classified) (ground (arith, h.short, h.lowercase))

strip_dot-none : (s : Str) → strip_suffix b'.' s ≡ none → strip_dot s ≡ s
strip_dot-none s h = ground arith

-- A canonical zone name is parsed to itself, so parsing twice is parsing once.
pub parse-text : (z : ZoneName) → IsZoneName z → parse z.text ≡ ok z
unfolding parse
parse-text z h =
    let visible = text-IsVisible z h in
    rw
      (
        trim-Lacks z.text (visible-Lacks z.text visible),
        ne-is_empty z.text (text-ne-nil z h),
        visible-any z.text visible,
        strip_dot-none z.text (strip_suffix-trim_end_by b'.' z.text (text-EndsInLabel z h).kept),
      )
      (parse_bare-text z h)
