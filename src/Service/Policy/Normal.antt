-- ===== src/Service/Policy/Normal.antt =====
-- `normalize_pattern` on the patterns that it renders.
use bindizr.Base.{
  false, List, ◌++◌, Option, some, none, Option-cases, nat_eq, ◌==◌, list_eq, eq_of_beq, is_empty,
  ◌>>=◌, All, All-append, All-imp, ok, err, bind-eq-ok, ok-injective, Bool-cases, inl, inr, ◌≡◌,
  refl, subst, ◌∙◌, arith,
}
use bindizr.Text.{Str, codes, is_whitespace}
use bindizr.Text.Trim.{trim, trim-Lacks, trim_start_by, trim_end_by, strip_prefix}
use bindizr.Name.Label.{join_labels}
use bindizr.Name.Decode.RoundTrip.{
  decode_name_labels-join_labels, decode_name_labels-join_labels_dot,
}
use bindizr.Name.Owner.{apex_text}
use bindizr.Name.Owner.RoundTrip.{IsVisible, IsVisible-labels}
use bindizr.Service.Error.{invalid_input}
use bindizr.Service.Policy.{
  match_any, wildcard_prefix, parse_relative_name, normalize_trimmed_pattern, normalize_pattern,
}
use bindizr.Service.Policy.Laws.{
  IsPattern, parse_relative_name-IsPattern, StartsPlain, with_plain, StartsPlain-append,
  join_labels-StartsPlain, special_patterns,
}

parse_relative_name-join_labels :
    (ls : List Str) → IsPattern ls → parse_relative_name (join_labels ls) ≡ ok ls
unfolding parse_relative_name
parse_relative_name-join_labels ls h =
    let n = h.name in
    rw (decode_name_labels-join_labels ls n.nonempty n.labels n.fits, parse_relative_name)
      (rw (h.no_star, parse_relative_name) refl)

parse_relative_name-join_labels_dot :
    (ls : List Str)
    → IsPattern ls
    → parse_relative_name (join_labels ls ++ codes ".") ≡ err invalid_input
unfolding parse_relative_name
parse_relative_name-join_labels_dot ls h =
    let n = h.name in
    rw (decode_name_labels-join_labels_dot ls n.nonempty n.labels n.fits, parse_relative_name) refl

-- A text with no blank that is not empty is normalised as it is.
untrimmed :
    (s : Str)
    → All IsVisible s
    → is_empty s ≡ false
    → normalize_pattern (some s) ≡ normalize_trimmed_pattern s
unfolding normalize_pattern
untrimmed s visible there =
    let same =
      trim-Lacks s
        (All-imp IsVisible (λ c. is_whitespace c ≡ false) (λ c v. ground arith) s visible) in
    rw same (rw there refl)

StartsPlain-there : (s : Str) → StartsPlain s → is_empty s ≡ false
StartsPlain-there s (with_plain d r e f g) = rw e refl

module _ (s : Str) (visible : All IsVisible s) where
  -- A text that begins like no special pattern is read as a relative name.
  plain_pattern :
      StartsPlain s
      → normalize_pattern (some s) ≡ (do ls ← parse_relative_name s; ok (join_labels ls))
  unfolding normalize_trimmed_pattern
  plain_pattern starts =
      let (any_test, apex_test, prefix) = special_patterns s starts in
      untrimmed s visible (StartsPlain-there s starts)
      ∙ rw (any_test, apex_test) (rw (prefix, normalize_trimmed_pattern) refl)

  -- Behind the prefix of a wildcard too.
  wildcard_name :
      normalize_pattern (some (wildcard_prefix ++ s))
      ≡ (do ls ← parse_relative_name s; ok (wildcard_prefix ++ join_labels ls))
  unfolding normalize_trimmed_pattern strip_prefix is_whitespace
  wildcard_name = untrimmed (wildcard_prefix ++ s) (refl, (refl, visible)) refl

dot-IsVisible : All IsVisible (codes ".")
unfolding is_whitespace
dot-IsVisible = (refl, tt)

-- A relative name with no `*` in a label, and a wildcard over it, are normalised to their own
-- spelling; the absolute name of the same labels, and a wildcard over that, are refused.
pub normalize_pattern-join_labels :
    (ls : List Str)
    → IsPattern ls
    → (normalize_pattern (some (join_labels ls)) ≡ ok (join_labels ls))
      × (normalize_pattern (some (wildcard_prefix ++ join_labels ls))
          ≡ ok (wildcard_prefix ++ join_labels ls))
      × (normalize_pattern (some (join_labels ls ++ codes ".")) ≡ err invalid_input)
      × (normalize_pattern (some (wildcard_prefix ++ (join_labels ls ++ codes ".")))
          ≡ err invalid_input)
normalize_pattern-join_labels ls h =
    let visible = IsVisible-labels ls h.name.labels in
    let starts = join_labels-StartsPlain ls h in
    let dotted = All-append IsVisible (join_labels ls) (codes ".") visible dot-IsVisible in
    let read = parse_relative_name-join_labels ls h in
    let refused = parse_relative_name-join_labels_dot ls h in
    (
      plain_pattern (join_labels ls) visible starts ∙ rw read refl,
      wildcard_name (join_labels ls) visible ∙ rw read refl,
      plain_pattern (join_labels ls ++ codes ".") dotted (StartsPlain-append (codes ".") starts)
          ∙ rw refused refl,
      wildcard_name (join_labels ls ++ codes ".") dotted ∙ rw refused refl,
    )

any_normal : normalize_pattern (some match_any) ≡ ok match_any
unfolding normalize_pattern trim trim_start_by trim_end_by is_whitespace
any_normal = refl

apex_normal : normalize_pattern (some apex_text) ≡ ok apex_text
unfolding normalize_pattern trim trim_start_by trim_end_by is_whitespace
apex_normal = refl

-- What a text without blanks at its ends is normalised to is its own normal form.
normalize_trimmed_pattern-normal :
    (raw p : Str) → normalize_trimmed_pattern raw ≡ ok p → normalize_pattern (some p) ≡ ok p
unfolding normalize_trimmed_pattern
normalize_trimmed_pattern-normal raw p h = elim (Bool-cases (raw == match_any)) [
  | inl t ↦
      let same : match_any ≡ p = cc (eq_of_beq raw match_any t, rw t at h) in
      subst (λ q. normalize_pattern (some q) ≡ ok q) same any_normal
  | inr f ↦ elim (Bool-cases (raw == apex_text)) [
    | inl t ↦
        let same : apex_text ≡ p = cc (eq_of_beq raw apex_text t, rw (f, t) at h) in
        subst (λ q. normalize_pattern (some q) ≡ ok q) same apex_normal
    | inr g ↦ elim (Option-cases (strip_prefix wildcard_prefix raw)) [
      | inl no_prefix ↦
          let (ls, read, last) =
            bind-eq-ok (parse_relative_name raw) _
              (rw (no_prefix, normalize_trimmed_pattern) at (rw (f, g) at h)) in
          let pattern = parse_relative_name-IsPattern raw read in
          subst (λ q. normalize_pattern (some q) ≡ ok q) (ok-injective last)
            (normalize_pattern-join_labels ls pattern).0
      | inr (name, prefix) ↦
          let (ls, read, last) =
            bind-eq-ok (parse_relative_name name) _
              (rw (prefix, normalize_trimmed_pattern) at (rw (f, g) at h)) in
          let pattern = parse_relative_name-IsPattern name read in
          subst (λ q. normalize_pattern (some q) ≡ ok q) (ok-injective last)
            (normalize_pattern-join_labels ls pattern).1
    ]
  ]
]

-- A pattern that `normalize_pattern` accepts is stored in a spelling that it leaves as it is.
normalize_pattern_idempotent :
    (value : Option Str) (p : Str)
    → normalize_pattern value ≡ ok p
    → normalize_pattern (some p) ≡ ok p
unfolding normalize_pattern
normalize_pattern_idempotent none p h =
    normalize_trimmed_pattern-normal match_any p (unfold normalize_trimmed_pattern in h)
normalize_pattern_idempotent (some value) p h = elim (Bool-cases (is_empty (trim value))) [
  | inl t ↦
      normalize_trimmed_pattern-normal match_any p (unfold normalize_trimmed_pattern in rw t at h)
  | inr f ↦ normalize_trimmed_pattern-normal (trim value) p (rw f at h)
]
