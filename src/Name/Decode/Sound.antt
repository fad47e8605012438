-- ===== src/Name/Decode/Sound.antt =====
-- What an accepted name satisfies.
use mathlib.Core.Path.{subst}
use mathlib.Core.List.{concat-ne-nil}
use bindizr.Base.{
  ◌<◌, ℕ, ◌≤◌, true, false, List, [], ◌∷◌, Bool, map, All, ok, ◌>>=◌, bind-eq-ok, ◌≡◌, ◌≢◌, ap,
  arith, Option-cases, Bool-cases, ◌==◌, nat_eq, inl, inr, All-append, ok-injective, ltb, length,
  ◌&&◌,
}
use bindizr.Text.{Str, Bytes, IsScalar, lower, map-lower_idem, is_scalar}
use bindizr.Text.Utf8.{from_utf8}
use bindizr.Text.Utf8.RoundTrip.{from_utf8-IsScalar}
use bindizr.Name.Label.{
  IsOwnerLabel, classify_owner_label, classify_owner_label_sound, classify_wire_len, wire_len,
}
use bindizr.Name.Decode.{
  Escape, outside, slash, digits, Reader, finish_label, read_char, finish, decode_from,
  decode_labels, decode_name_labels, classify_labels, classify_name, last_is_empty, pop,
  check_labels,
}

-- What `finish_label` guarantees: a text of scalar values in lower case.
pub record IsFolded (l : Str) : Type 0 where
  pub lowercase : map lower l ≡ l
  pub scalars : All IsScalar l

lower-IsScalar : (c : ℕ) → IsScalar c → IsScalar (lower c)
unfolding is_scalar lower
lower-IsScalar c h = ground arith

map-IsScalar : (s : Str) → All IsScalar s → All IsScalar (map lower s)
map-IsScalar [] h = tt
map-IsScalar (c ∷ s) h = (lower-IsScalar c h.0, map-IsScalar s h.1)

finish_label-IsFolded : (bs : Bytes) {l : Str} → finish_label bs ≡ ok l → IsFolded l
unfolding finish_label
finish_label-IsFolded bs {l} e = elim (Option-cases (from_utf8 bs)) [
  | inl h ↦ cc (rw (h, finish_label) at e)
  | inr (t, h) ↦
      let same : map lower t ≡ l = ground (arith, h) in
      subst IsFolded same (record {
        lowercase = map-lower_idem t;
        scalars = map-IsScalar t (from_utf8-IsScalar bs h);
      })
]

-- Every label that the decoder has finished is folded.
read_char-IsFolded :
    (x : Escape) (labels : List Str) (label : Bytes) (c : ℕ) {r : Reader}
    → All IsFolded labels
    → read_char x labels label c ≡ ok r
    → All IsFolded r.labels
unfolding read_char
read_char-IsFolded outside labels label c h e = elim (Bool-cases (c == b'.')) [
  | inl dot ↦
      let (l, finished, e') = bind-eq-ok (finish_label label) _ (rw (dot, read_char) at e) in
      ground
        (arith, All-append IsFolded labels (l ∷ []) h (finish_label-IsFolded label finished, tt))
  | inr plain ↦ ground arith
]
read_char-IsFolded slash labels label c h e = ground arith
read_char-IsFolded (digits left octet) labels label c h e = ground arith

finish-IsFolded :
    (x : Escape) (labels : List Str) (label : Bytes) {ls : List Str}
    → All IsFolded labels
    → finish x labels label ≡ ok ls
    → All IsFolded ls × (ls ≢ [])
unfolding finish
finish-IsFolded outside labels label h e =
    let (l, finished, e') = bind-eq-ok (finish_label label) _ e in
    subst (λ ls. All IsFolded ls × (ls ≢ [])) (ok-injective e')
      (
        All-append IsFolded labels (l ∷ []) h (finish_label-IsFolded label finished, tt),
        concat-ne-nil l labels,
      )
finish-IsFolded slash labels label h e = cc
finish-IsFolded (digits k o) labels label h e = cc

decode_from-IsFolded :
    (s : Str) (x : Escape) (labels : List Str) (label : Bytes) {ls : List Str}
    → All IsFolded labels
    → decode_from (record { escape = x; labels = labels; label = label }) s ≡ ok ls
    → All IsFolded ls × (ls ≢ [])
unfolding decode_from
decode_from-IsFolded [] x labels label h e = finish-IsFolded x labels label h e
decode_from-IsFolded (c ∷ s) x labels label h e =
    let (r, read, e') = bind-eq-ok (read_char x labels label c) (λ r. decode_from r s) e in
    decode_from-IsFolded s r.escape r.labels r.label (read_char-IsFolded x labels label c h read) e'

-- The decoder returns at least one label, and each is folded.
pub decode_labels-IsFolded :
    (s : Str) {ls : List Str} → decode_labels s ≡ ok ls → All IsFolded ls × (ls ≢ [])
unfolding decode_labels
decode_labels-IsFolded s e = decode_from-IsFolded s outside [] [] tt e

pop-All : (ls : List Str) → All IsFolded ls → All IsFolded (pop ls)
pop-All [] h = tt
pop-All (l ∷ []) h = tt
pop-All (l ∷ m ∷ ls) h = (h.0, pop-All (m ∷ ls) h.1)

pop-ne-nil : (ls : List Str) → 1 < length ls → pop ls ≢ []
pop-ne-nil [] h = absurd (omega arith)
pop-ne-nil (l ∷ []) h = absurd (omega arith)
pop-ne-nil (l ∷ m ∷ ls) h = λ e. cc

classify_labels_sound :
    (ls : List Str) → classify_labels ls ≡ ok tt → All IsFolded ls → All IsOwnerLabel ls
unfolding classify_labels
classify_labels_sound [] e h = tt
classify_labels_sound (l ∷ ls) e h =
    let (u, one, e') = bind-eq-ok (classify_owner_label l) (λ _. classify_labels ls) e in
    let (ne, short, clean) = classify_owner_label_sound l one in
    (
      record {
        nonempty = ne;
        short = short;
        clean = clean;
        lowercase = h.0.lowercase;
        scalars = h.0.scalars;
      },
      classify_labels_sound ls e' h.1,
    )

-- Labels that stand for a name: at least one, each accepted, and short enough for the wire.
pub record IsName (ls : List Str) : Type 0 where
  pub nonempty : ls ≢ []
  pub labels : All IsOwnerLabel ls
  pub fits : wire_len ls [] ≤ 255

classify_name_sound :
    (labels : List Str)
    → All IsFolded labels
    → labels ≢ []
    → classify_name labels ≡ ok tt
    → IsName labels
unfolding classify_name
classify_name_sound labels h ne e =
    let (u, all_labels, short) = bind-eq-ok (classify_labels labels) _ e in
    record {
      nonempty = ne;
      labels = classify_labels_sound labels all_labels h;
      fits = unfold classify_wire_len in ground arith;
    }

checked_labels_sound :
    (labels : List Str) (b : Bool) {ls : List Str} {absolute : Bool}
    → All IsFolded labels
    → labels ≢ []
    → ◌>>=◌ {B = List Str × Bool} (classify_name labels) (λ _. ok (labels, b)) ≡ ok (ls, absolute)
    → IsName ls
checked_labels_sound labels b h ne e =
    let (u, classified, e') =
      bind-eq-ok {B = List Str × Bool} (classify_name labels) (λ _. ok (labels, b)) e in
    subst IsName (ap (λ (r : List Str × Bool). r.0) (ok-injective e'))
      (classify_name_sound labels h ne classified)

check_labels_sound :
    (decoded : List Str) {ls : List Str} {absolute : Bool}
    → All IsFolded decoded
    → decoded ≢ []
    → check_labels decoded ≡ ok (ls, absolute)
    → IsName ls
unfolding check_labels
check_labels_sound decoded h ne e =
    elim (Bool-cases (ltb 1 (length decoded) && last_is_empty decoded)) [
      | inl t ↦
          checked_labels_sound (pop decoded) true (pop-All decoded h)
            (pop-ne-nil decoded (ground arith)) (rw (t, check_labels) at e)
      | inr f ↦ checked_labels_sound decoded false h ne (rw (f, check_labels) at e)
    ]

-- Every name that `decode_name_labels` accepts has at least one label, each of 1 to 63 bytes, in
-- lower case and without whitespace or control characters, and takes at most 255 octets.
pub decode_name_labels_sound :
    (s : Str) {ls : List Str} {absolute : Bool}
    → decode_name_labels s ≡ ok (ls, absolute)
    → IsName ls
unfolding decode_name_labels
decode_name_labels_sound s e =
    let (decoded, read, e') = bind-eq-ok (decode_labels s) check_labels e in
    let (folded, ne) = decode_labels-IsFolded s read in check_labels_sound decoded folded ne e'
