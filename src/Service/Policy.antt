-- ===== src/Service/Policy.antt =====
-- policy_pattern/mod.rs: the record-name patterns and type lists of zone policies.
pub mod Laws
pub mod Normal
use bindizr.Base.{
  ℕ, Bool, true, false, not, ◌&&◌, ◌||◌, List, [], ◌∷◌, ◌++◌, Option, none, some, nat_eq, ◌==◌,
  list_eq, if◌then◌else◌, is_empty, any, Result, ok, err, ◌>>=◌, ◌>>◌,
}
use bindizr.Text.{Str, codes}
use bindizr.Text.Trim.{trim, strip_prefix}
use bindizr.Text.Split.{split, join}
use bindizr.Name.Label.{join_labels}
use bindizr.Name.Decode.{decode_name_labels}
use bindizr.Name.Owner
use bindizr.Name.Owner.{OwnerName, owner_eq, is_apex, apex_text, is_same_or_under}
use bindizr.Record.Kind.{RecordType, Uppercase, as_str, from_str}
use bindizr.Service.Error.{ErrorCode, Service, invalid_input}

-- The pattern, or type list, that grants all.
abbrev pub match_any : Str
match_any = codes "*"

abbrev pub wildcard_prefix : Str
wildcard_prefix = codes "*."

unfoldable pub pattern_matches_name : Str → OwnerName → Bool
pattern_matches_name pattern name =
    if pattern == match_any
    then true
    else if pattern == apex_text
    then is_apex name
    else elim (strip_prefix wildcard_prefix pattern) [
      | some suffix ↦ is_same_or_under name (Owner.from_row suffix)
      | none ↦ name == Owner.from_row pattern
    ]

unfoldable pub types_match : Str → Option RecordType → Bool
types_match types record_type = if types == match_any then true else elim record_type [
  | none ↦ false
  | some t ↦ any (λ part. part == as_str t) (split b',' types)
]

-- A pattern's name part: a relative name with no `*` in a label.
unfoldable pub parse_relative_name : Str → Service (List Str)
parse_relative_name name = elim (decode_name_labels name) [
  | err e ↦ err invalid_input
  | ok (labels, rooted) ↦
      if rooted || any (λ label. any (λ c. c == b'*') label) labels
      then err invalid_input
      else ok labels
]

-- A pattern that is neither `*` nor `@`, by whether it began with `*.`.
abbrev normalize_name : Str → Option Str → Service Str
normalize_name raw (some name) = do
  labels ← parse_relative_name name
  ok (wildcard_prefix ++ join_labels labels)
normalize_name raw none = do labels ← parse_relative_name raw; ok (join_labels labels)

unfoldable pub normalize_trimmed_pattern : Str → Service Str
unfolding parse_relative_name
normalize_trimmed_pattern raw =
    if raw == match_any || raw == apex_text
    then ok raw
    else normalize_name raw (strip_prefix wildcard_prefix raw)

-- `normalize_pattern`; no pattern and a blank one grant all names.
unfoldable pub normalize_pattern : Option Str → Service Str
unfolding normalize_trimmed_pattern
normalize_pattern none = ok match_any
normalize_pattern (some value) =
    let raw = trim value in if is_empty raw then ok match_any else normalize_trimmed_pattern raw

-- `Vec::contains`, and a push behind it.
abbrev contains : List Str → Str → Bool
contains types name = any (λ t. t == name) types

abbrev push_new : List Str → Str → List Str
push_new types name = if contains types name then types else types ++ name ∷ []

module _ (u : Uppercase) where
  -- The loop over the parts of a type list.
  unfoldable pub collect_types : List Str → List Str → Service (List Str)
  collect_types [] types = ok types
  collect_types (part ∷ parts) types = elim (from_str u (trim part)) [
    | none ↦ err invalid_input
    | some t ↦ collect_types parts (push_new types (as_str t))
  ]

  unfoldable pub normalize_trimmed_types : Str → Service Str
  unfolding collect_types
  normalize_trimmed_types raw =
      if raw == match_any
      then ok match_any
      else do types ← collect_types (split b',' raw) []; ok (join (codes ",") types)

  -- `normalize_types`
  unfoldable pub normalize_types : Option Str → Service Str
  unfolding normalize_trimmed_types
  normalize_types none = ok match_any
  normalize_types (some value) =
      let raw = trim value in if is_empty raw then ok match_any else normalize_trimmed_types raw
