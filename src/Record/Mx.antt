-- ===== src/Record/Mx.antt =====
-- `MxRecordValue` of dns/record/mx.rs.
use bindizr.Base.{
  ℕ, Bool, false, not, ◌&&◌, List, [], ◌∷◌, ◌++◌, Option, nat_eq, ◌==◌, list_eq, if◌then◌else◌,
  Result, ok, err, ◌>>=◌, ℤ,
}
use bindizr.Text.{Str, codes}
use bindizr.Text.Words.{split_whitespace}
use bindizr.Text.Number.{to_string}
use bindizr.Record.Value.{
  ValueError, bad_fields, null_mx_priority, is_root, parse_optional_u16_record_field,
  validate_domain_record_value, to_fqdn_lowercase,
}

pub record MxRecordValue : Type 0 where
  pub priority : ℕ
  pub target : Str

abbrev mx_fields : List Str → Option ℤ → Result ValueError MxRecordValue
mx_fields (target ∷ []) priority = do
  p ← parse_optional_u16_record_field priority
  ok (record { priority = p; target = target })
mx_fields _ priority = err bad_fields

unfoldable pub parse : Str → Option ℤ → Result ValueError MxRecordValue
parse value fallback_priority = mx_fields (split_whitespace value) fallback_priority

unfoldable pub validate : MxRecordValue → Result ValueError (Unit {0})
validate v =
    if is_root v.target
    then (if not (v.priority == 0) then err null_mx_priority else ok tt)
    else validate_domain_record_value v.target

abbrev pub is_null : MxRecordValue → Bool
is_null v = v.priority == 0 && is_root v.target

unfoldable pub is_null_value : Str → Option ℤ → Bool
is_null_value value priority = elim (parse value priority) [ ok v ↦ is_null v | err e ↦ false ]

unfoldable pub canonical : MxRecordValue → Str
canonical v = to_string v.priority ++ (codes " " ++ to_fqdn_lowercase v.target)

unfoldable pub encoded : MxRecordValue → Str
encoded v = to_fqdn_lowercase v.target
