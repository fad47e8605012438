-- ===== src/Service/Policy/Laws.antt =====
-- `pattern_matches_name` and `parse_relative_name` against the labels of names.
use mathlib.Core.Path.{subst}
use bindizr.Base.{
  ℕ, true, false, ◌||◌, List, [], ◌∷◌, ◌++◌, none, nat_eq, ◌==◌, list_eq, any, ok, Result-cases,
  take, length, ◌-◌, ◌∙◌, ◌≡◌, ◌≢◌, ◌↔◌, refl, sym, ap, arith, Bool-cases, inl, inr, ok-injective,
  eq_of_beq,
}
use bindizr.Text.{Str}
use bindizr.Name.Label.{
  join_labels, escape_label, escape_chars, escaped_in_label, escape_label-eq-escape_chars,
}
use bindizr.Name.Decode.{decode_name_labels}
use bindizr.Name.Decode.RoundTrip.{join_labels-cons, join_labels_one}
use bindizr.Name.Decode.Sound.{IsName, decode_name_labels_sound}
use bindizr.Name.Owner.{OwnerName, owner_eq, apex_text, is_same_or_under, is_label_suffix}
use bindizr.Name.Owner.Suffix.{is_label_suffix-append, is_label_suffix_sound}
use bindizr.Name.Owner.RoundTrip.{from_row-join_labels}
use bindizr.Text.Trim.{strip_prefix, strip_prefix-append}
use bindizr.Service.Policy.{match_any, wildcard_prefix, pattern_matches_name, parse_relative_name}

-- Labels that a pattern may name: those of a name, none of which holds a `*`.
pub record IsPattern (ls : List Str) : Type 0 where
  pub name : IsName ls
  pub no_star : any (λ label. any (λ c. c == b'*') label) ls ≡ false

-- Whatever `parse_relative_name` accepts is a name with no `*` in a label.
pub parse_relative_name-IsPattern :
    (s : Str) {ls : List Str} → parse_relative_name s ≡ ok ls → IsPattern ls
unfolding parse_relative_name
parse_relative_name-IsPattern s h = elim (Result-cases (decode_name_labels s)) [
  | inr (e, failed) ↦ cc (rw (failed, parse_relative_name) at h)
  | inl ((labels, rooted), decoded) ↦
      elim (Bool-cases (rooted || any (λ label. any (λ c. c == b'*') label) labels)) [
        | inl t ↦ cc (rw (decoded, t, parse_relative_name) at h)
        | inr f ↦
            subst IsPattern (ok-injective (rw (decoded, f, parse_relative_name) at h))
              (record { name = decode_name_labels_sound s decoded; no_star = ground arith })
      ]
]

-- A rendered pattern does not begin like `*` or `@`.
pub data StartsPlain (s : Str) : Type 0 where
  with_plain :
      (d : ℕ) (r : Str) → s ≡ d ∷ r → (d == b'*') ≡ false → (d == b'@') ≡ false → StartsPlain s

pub StartsPlain-append : {s : Str} (t : Str) → StartsPlain s → StartsPlain (s ++ t)
StartsPlain-append t (with_plain d r e f g) = with_plain d (r ++ t) (ap (λ u. u ++ t) e) f g

escape_label-StartsPlain :
    (l : Str) → l ≢ [] → any (λ c. c == b'*') l ≡ false → StartsPlain (escape_label l)
escape_label-StartsPlain [] h k = absurd (h refl)
escape_label-StartsPlain (c ∷ l) h k = rw (escape_label-eq-escape_chars (c ∷ l)) (
    unfold escape_chars escaped_in_label in
    elim (Bool-cases (escaped_in_label c)) [
      | inl t ↦ with_plain b'\\' (c ∷ escape_chars l) (ground arith) refl refl
      | inr f ↦ with_plain c (escape_chars l) (ground arith) (ground arith) (ground arith)
    ])

pub join_labels-StartsPlain : (ls : List Str) → IsPattern ls → StartsPlain (join_labels ls)
join_labels-StartsPlain [] h = absurd (h.name.nonempty refl)
join_labels-StartsPlain (l ∷ []) h =
    rw (join_labels_one l)
      (escape_label-StartsPlain l h.name.labels.0.nonempty (ground (arith, h.no_star)))
join_labels-StartsPlain (l ∷ m ∷ ls) h = rw (join_labels-cons l m ls) (
    StartsPlain-append (b'.' ∷ join_labels (m ∷ ls))
      (escape_label-StartsPlain l h.name.labels.0.nonempty (ground (arith, h.no_star))))

-- A text that begins plainly is neither of the special patterns.
pub special_patterns :
    (s : Str)
    → StartsPlain s
    → ((s == match_any) ≡ false)
      × ((s == apex_text) ≡ false)
      × (strip_prefix wildcard_prefix s ≡ none)
unfolding strip_prefix
special_patterns s (with_plain d r e f g) = rw e (rw f, rw g, ground arith)

-- The pattern that renders labels with no `*` matches the one name that has those labels.
pub exact_pattern :
    (ls : List Str) (name : OwnerName)
    → IsPattern ls
    → (pattern_matches_name (join_labels ls) name ≡ true) ↔ (name.labels ≡ ls)
exact_pattern ls name h =
    let (any_test, apex_test, prefix) =
      special_patterns (join_labels ls) (join_labels-StartsPlain ls h) in
    let matches : pattern_matches_name (join_labels ls) name ≡ (name.labels == ls) =
      unfold pattern_matches_name in
      rw (any_test, apex_test)
        (rw (prefix, pattern_matches_name) (rw (from_row-join_labels ls h.name))) in
    (
      λ e. eq_of_beq name.labels ls (sym matches ∙ e),
      λ e. matches ∙ (list_eq.decides name.labels ls).1 e,
    )

-- A pattern of `*.` and rendered labels with no `*` matches exactly the names whose labels end in
-- those: the name itself, and names with whole labels in front.
pub wildcard_pattern :
    (ls : List Str) (name : OwnerName)
    → IsPattern ls
    → (pattern_matches_name (wildcard_prefix ++ join_labels ls) name ≡ true)
      ↔ ((front : List Str) × (name.labels ≡ front ++ ls))
wildcard_pattern ls name h =
    let matches : pattern_matches_name (wildcard_prefix ++ join_labels ls) name
        ≡ is_label_suffix name.labels ls =
      unfold pattern_matches_name is_same_or_under in
      rw (strip_prefix-append wildcard_prefix (join_labels ls), pattern_matches_name)
        (rw (from_row-join_labels ls h.name)) in
    (
      λ e. (
        take (length name.labels - length ls) name.labels,
        sym (is_label_suffix_sound name.labels ls (sym matches ∙ e)),
      ),
      λ f. matches ∙ rw (f.1) (is_label_suffix-append f.0 ls),
    )
