-- ===== src/Record/Srv.antt =====
-- `SrvRecordValue` of dns/record/srv.rs.
use bindizr.Base.{
  ℕ, List, [], ◌∷◌, ◌++◌, Option, nat_eq, list_eq, if◌then◌else◌, Result, ok, err, ◌>>=◌, ℤ,
}
use bindizr.Text.{Str, codes}
use bindizr.Text.Words.{split_whitespace}
use bindizr.Text.Number.{to_string}
use bindizr.Record.Value.{
  ValueError, bad_fields, is_root, parse_optional_u16_record_field, parse_u16_record_field,
  validate_domain_record_value, to_fqdn_lowercase,
}

pub record SrvRecordValue : Type 0 where
  pub priority : ℕ
  pub weight : ℕ
  pub port : ℕ
  pub target : Str

abbrev srv_fields : List Str → Option ℤ → Result ValueError SrvRecordValue
srv_fields (weight ∷ port ∷ target ∷ []) priority = do
  p ← parse_optional_u16_record_field priority
  w ← parse_u16_record_field weight
  n ← parse_u16_record_field port
  ok (record { priority = p; weight = w; port = n; target = target })
srv_fields _ priority = err bad_fields

unfoldable pub parse : Str → Option ℤ → Result ValueError SrvRecordValue
parse value fallback_priority = srv_fields (split_whitespace value) fallback_priority

unfoldable pub validate : SrvRecordValue → Result ValueError (Unit {0})
validate v = if is_root v.target then ok tt else validate_domain_record_value v.target

unfoldable pub canonical : SrvRecordValue → Str
canonical v =
    to_string v.priority
    ++ (codes " "
        ++ (to_string v.weight
            ++ (codes " " ++ (to_string v.port ++ (codes " " ++ to_fqdn_lowercase v.target)))))

unfoldable pub encoded : SrvRecordValue → Str
encoded v =
    to_string v.weight
    ++ (codes " " ++ (to_string v.port ++ (codes " " ++ to_fqdn_lowercase v.target)))
