-- ===== src/Record/Soa.antt =====
-- `SoaRecordValue` of dns/record/soa/mod.rs.
use bindizr.Base.{ℕ, List, [], ◌∷◌, ◌++◌, nat_eq, list_eq, Result, ok, err, ◌>>=◌, ◌>>◌}
use bindizr.Text.{Str, codes}
use bindizr.Text.Words.{split_whitespace}
use bindizr.Text.Number.{to_string}
use bindizr.Record.Value.{
  ValueError, bad_fields, parse_u32_record_field, validate_domain_record_value, to_fqdn_lowercase,
}

pub record SoaRecordValue : Type 0 where
  pub mname : Str
  pub rname : Str
  pub serial : ℕ
  pub refresh : ℕ
  pub retry : ℕ
  pub expire : ℕ
  pub minimum : ℕ

abbrev soa_fields : List Str → Result ValueError SoaRecordValue
soa_fields (mname ∷ rname ∷ serial ∷ refresh ∷ retry ∷ expire ∷ minimum ∷ []) = do
  s ← parse_u32_record_field serial
  r ← parse_u32_record_field refresh
  t ← parse_u32_record_field retry
  e ← parse_u32_record_field expire
  m ← parse_u32_record_field minimum
  ok (record {
    mname = mname;
    rname = rname;
    serial = s;
    refresh = r;
    retry = t;
    expire = e;
    minimum = m;
  })
soa_fields _ = err bad_fields

unfoldable pub parse : Str → Result ValueError SoaRecordValue
parse value = soa_fields (split_whitespace value)

unfoldable pub validate : SoaRecordValue → Result ValueError (Unit {0})
validate v = do validate_domain_record_value v.mname; validate_domain_record_value v.rname

unfoldable pub canonical : SoaRecordValue → Str
canonical v =
    to_fqdn_lowercase v.mname
    ++ (codes " "
        ++ (to_fqdn_lowercase v.rname
            ++ (codes " "
                ++ (to_string v.serial
                    ++ (codes " "
                        ++ (to_string v.refresh
                            ++ (codes " "
                                ++ (to_string v.retry
                                    ++ (codes " "
                                        ++ (to_string v.expire
                                            ++ (codes " " ++ to_string v.minimum)))))))))))
