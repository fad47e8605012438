-- ===== src/Name/Zone/Laws.antt =====
-- Canonical zone names, and the decoder on their texts.
use mathlib.Core.Path.{subst}
use bindizr.Base.{
  ℕ, ◌+◌, ◌≤◌, true, false, List, [], ◌∷◌, map, ok, append-nil, bind-eq-ok, ok-injective, All,
  All-imp, Bool-cases, inl, inr, ◌≡◌, ◌≢◌, refl, sym, ap, ◌∙◌, arith, all, any, is_empty, and-true,
  ltb, ◌==◌, nat_eq,
}
use bindizr.Text.{
  Str, codes, IsScalar, is_scalar, is_whitespace, is_ascii_alphanumeric, lower, byte_len,
  byte_len-lower, map-lower_idem, len_utf8,
}
use bindizr.Text.Trim.{trim}
use bindizr.Text.Split.{split, push_first, split-ne-nil, join, join-split}
use bindizr.Name.Label.{
  is_ldh, classify_domain_label, IsOwnerLabel, escape_label, escaped_in_label, join_labels,
  starts_with, ends_with, has_whitespace_or_control, is_whitespace_or_control, labels_len,
}
use bindizr.Name.Decode.{decode_name_labels}
use bindizr.Name.Decode.RoundTrip.{decode_name_labels-join_labels}
use bindizr.Name.Decode.Sound.{IsName}
use bindizr.Name.Zone.{ZoneName, classify_domain_labels, parse_bare, parse, labels, strip_dot}

abbrev pub IsZoneLabel : Str → Type 0
IsZoneLabel l = classify_domain_label l false ≡ ok tt

pub record IsZoneName (z : ZoneName) : Type 0 where
  pub ldh : All IsZoneLabel (labels z)
  pub short : byte_len z.text ≤ 253
  pub lowercase : map lower z.text ≡ z.text

-- What one LDH character is not.
pub record IsPlain (c : ℕ) : Type 0 where
  pub scalar : IsScalar c
  pub visible : is_whitespace_or_control c ≡ false
  pub unescaped : escaped_in_label c ≡ false

is_ldh-IsPlain : (c : ℕ) → is_ldh false c ≡ true → IsPlain c
unfolding is_ascii_alphanumeric is_scalar is_whitespace escaped_in_label
is_ldh-IsPlain c h = record {
  scalar = ground arith;
  visible = ground arith;
  unescaped = ground arith;
}

all-IsPlain : (l : Str) → all (is_ldh false) l ≡ true → All IsPlain l
all-IsPlain [] h = tt
all-IsPlain (c ∷ l) h =
    let (one, rest) = and-true (is_ldh false c) (all (is_ldh false) l) h in
    (is_ldh-IsPlain c one, all-IsPlain l rest)

pub record IsPlainLabel (l : Str) : Type 0 where
  pub nonempty : l ≢ []
  pub short : byte_len l ≤ 63
  pub plain : All IsPlain l

pub IsZoneLabel-IsPlainLabel : (l : Str) → IsZoneLabel l → IsPlainLabel l
unfolding classify_domain_label
IsZoneLabel-IsPlainLabel [] h = cc
IsZoneLabel-IsPlainLabel (c ∷ l) h = record {
  nonempty = λ e. cc;
  short = ground arith;
  plain = all-IsPlain (c ∷ l) (ground arith);
}

escape_label-IsPlain : (l : Str) → All IsPlain l → any escaped_in_label l ≡ false
escape_label-IsPlain [] h = refl
escape_label-IsPlain (c ∷ l) h = ground (arith, h.0.unescaped, escape_label-IsPlain l h.1)

clean-IsPlain : (l : Str) → All IsPlain l → has_whitespace_or_control l ≡ false
clean-IsPlain [] h = refl
clean-IsPlain (c ∷ l) h = ground (arith, h.0.visible, clean-IsPlain l h.1)

map-escape_label : (ls : List Str) → All IsZoneLabel ls → map escape_label ls ≡ ls
unfolding escape_label
map-escape_label [] h = refl
map-escape_label (l ∷ ls) h =
    ground (
      arith,
      escape_label-IsPlain l (IsZoneLabel-IsPlainLabel l h.0).plain,
      map-escape_label ls h.1,
    )

-- No label of a zone name needs an escape, so its labels render to its text.
pub join_labels-labels : (z : ZoneName) → IsZoneName z → join_labels (labels z) ≡ z.text
unfolding join_labels labels
join_labels-labels z h =
    ap (join (codes ".")) (map-escape_label (split b'.' z.text) h.ldh) ∙ join-split b'.' z.text

all_lower-IsOwnerLabel :
    (ls : List Str) → All IsZoneLabel ls → map (map lower) ls ≡ ls → All IsOwnerLabel ls
all_lower-IsOwnerLabel [] h e = tt
all_lower-IsOwnerLabel (l ∷ ls) h e =
    let p = IsZoneLabel-IsPlainLabel l h.0 in
    (
      record {
        nonempty = p.nonempty;
        short = p.short;
        clean = clean-IsPlain l p.plain;
        lowercase = cc;
        scalars = All-imp IsPlain IsScalar (λ c q. q.scalar) l p.plain;
      },
      all_lower-IsOwnerLabel ls h.1 (cc),
    )

lower-eq-dot : (c : ℕ) → (lower c == b'.') ≡ (c == b'.')
unfolding lower
lower-eq-dot c = ground arith

push_first-lower :
    (c : ℕ) (ps : List Str)
    → map (map lower) (push_first c ps) ≡ push_first (lower c) (map (map lower) ps)
push_first-lower c [] = refl
push_first-lower c (p ∷ ps) = refl

-- Lowering the case of a name lowers that of its labels.
split-lower : (s : Str) → split b'.' (map lower s) ≡ map (map lower) (split b'.' s)
unfolding split
split-lower [] = refl
split-lower (c ∷ s) =
    ground (arith, lower-eq-dot c, split-lower s, push_first-lower c (split b'.' s))

labels_len-push_first :
    (c : ℕ) (ps : List Str) → ps ≢ [] → labels_len (push_first c ps) ≡ len_utf8 c + labels_len ps
labels_len-push_first c [] h = absurd (h refl)
labels_len-push_first c (p ∷ ps) h = omega arith

-- The wire form takes one octet more than the text, for the first label's length.
labels_len-split : (s : Str) → labels_len (split b'.' s) ≡ byte_len s + 1
unfolding split
labels_len-split [] = omega arith
labels_len-split (c ∷ s) = elim (Bool-cases (c == b'.')) [
  | inl dot ↦
      let one : len_utf8 c ≡ 1 = unfold len_utf8 in ground arith in
      rw (dot, one) (omega (arith, labels_len-split s))
  | inr other ↦ rw other (
      omega
        (arith, labels_len-push_first c (split b'.' s) (split-ne-nil b'.' s), labels_len-split s))
]

-- The labels of a zone name are a name of at most 255 octets.
pub labels-IsName : (z : ZoneName) → IsZoneName z → IsName (labels z)
unfolding labels
labels-IsName z h = record {
  nonempty = split-ne-nil b'.' z.text;
  labels =
      all_lower-IsOwnerLabel (split b'.' z.text) h.ldh
        (sym (split-lower z.text) ∙ ap (split b'.') h.lowercase);
  fits = rw append-nil (omega (arith, labels_len-split z.text, h.short));
}

-- In a canonical zone name every dot is a boundary: `decode_name_labels` reads the same labels, as a
-- relative name.
pub decode_name_labels-text :
    (z : ZoneName) → IsZoneName z → decode_name_labels z.text ≡ ok (labels z, false)
decode_name_labels-text z h =
    let n = labels-IsName z h in
    subst (λ t. decode_name_labels t ≡ ok (labels z, false)) (join_labels-labels z h)
      (decode_name_labels-join_labels (labels z) n.nonempty n.labels n.fits)

starts_with-lower : (l : Str) → starts_with b'-' (map lower l) ≡ starts_with b'-' l
unfolding lower
starts_with-lower [] = refl
starts_with-lower (c ∷ l) = ground arith

ends_with-lower : (l : Str) → ends_with b'-' (map lower l) ≡ ends_with b'-' l
ends_with-lower [] = refl
ends_with-lower (c ∷ []) = unfold lower in ground arith
ends_with-lower (c ∷ d ∷ l) = ends_with-lower (d ∷ l)

is_ldh-lower : (c : ℕ) → is_ldh false (lower c) ≡ is_ldh false c
unfolding lower is_ascii_alphanumeric
is_ldh-lower c = ground arith

all-is_ldh-lower : (l : Str) → all (is_ldh false) (map lower l) ≡ all (is_ldh false) l
all-is_ldh-lower [] = refl
all-is_ldh-lower (c ∷ l) = cc (is_ldh-lower c, all-is_ldh-lower l)

is_empty-lower : (l : Str) → is_empty (map lower l) ≡ is_empty l
is_empty-lower [] = refl
is_empty-lower (c ∷ l) = refl

classify_domain_label-lower :
    (l : Str) → classify_domain_label (map lower l) false ≡ classify_domain_label l false
unfolding classify_domain_label
classify_domain_label-lower l =
    rw (
      is_empty-lower l,
      byte_len-lower l,
      all-is_ldh-lower l,
      starts_with-lower l,
      ends_with-lower l,
    )

classify_domain_labels_sound :
    (ls : List Str) → classify_domain_labels ls ≡ ok tt → All IsZoneLabel ls
unfolding classify_domain_labels
classify_domain_labels_sound [] e = tt
classify_domain_labels_sound (l ∷ ls) e =
    let (_, one, rest) =
      bind-eq-ok (classify_domain_label l false) (λ _. classify_domain_labels ls) e in
    (one, classify_domain_labels_sound ls rest)

pub classify_domain_labels_complete :
    (ls : List Str) → All IsZoneLabel ls → classify_domain_labels ls ≡ ok tt
unfolding classify_domain_labels
classify_domain_labels_complete [] h = refl
classify_domain_labels_complete (l ∷ ls) h = rw h.0 (classify_domain_labels_complete ls h.1)

map-IsZoneLabel : (ls : List Str) → All IsZoneLabel ls → All IsZoneLabel (map (map lower) ls)
map-IsZoneLabel [] h = tt
map-IsZoneLabel (l ∷ ls) h = (classify_domain_label-lower l ∙ h.0, map-IsZoneLabel ls h.1)

parse_bare_sound : (bare : Str) {z : ZoneName} → parse_bare bare ≡ ok z → IsZoneName z
unfolding parse_bare
parse_bare_sound bare e = elim (Bool-cases (is_empty bare)) [
  | inl t ↦ cc (rw (t, parse_bare) at e)
  | inr f ↦ elim (Bool-cases (ltb 253 (byte_len bare))) [
    | inl t ↦ cc (rw (f, t, parse_bare) at e)
    | inr g ↦
        let (_, classified, e') =
          bind-eq-ok (classify_domain_labels (split b'.' bare)) _ (rw (f, g, parse_bare) at e) in
        subst IsZoneName (ok-injective e') (record {
          ldh =
              unfold labels in
              rw (split-lower bare) (
                map-IsZoneLabel (split b'.' bare)
                  (classify_domain_labels_sound (split b'.' bare) classified));
          short = rw (byte_len-lower bare) (ground arith);
          lowercase = map-lower_idem bare;
        })
  ]
]

-- Whatever `ZoneName::parse` accepts is canonical: LDH labels, at most 253 bytes, lower case.
pub parse-IsZoneName : (s : Str) {z : ZoneName} → parse s ≡ ok z → IsZoneName z
unfolding parse
parse-IsZoneName s e = elim (Bool-cases (is_empty (trim s))) [
  | inl t ↦ cc (rw (t, parse) at e)
  | inr f ↦ elim (Bool-cases (has_whitespace_or_control (trim s))) [
    | inl t ↦ cc (rw (f, t, parse) at e)
    | inr g ↦ parse_bare_sound (strip_dot (trim s)) (rw (f, g, parse) at e)
  ]
]
