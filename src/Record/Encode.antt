-- ===== src/Record/Encode.antt =====
-- `RecordType::encoded_value` of model/record/mod.rs: the text that a write stores.
use bindizr.Base.{Option, none, some, Result, ok, err, ◌>>=◌, ℤ, ◌>>◌}
use bindizr.Text.{Str}
use bindizr.Text.Trim.{trim}
use bindizr.Record.Kind.{RecordType, a, aaaa, cname, mx, txt, ns, soa, srv, ptr}
use bindizr.Record.Value.{IpText, validate_domain_record_value, to_fqdn_lowercase}
use bindizr.Record.Mx
use bindizr.Record.Srv
use bindizr.Record.Soa
use bindizr.Record.Txt
use bindizr.Record.Txt.{Base64}

-- The message of a refusal is not kept.
abbrev encoded_or_none {ℓ κ} : {E : Type κ} {A : Type ℓ} → Result E A → (A → Str) → Option Str
encoded_or_none (ok v) f = some (f v)
encoded_or_none (err e) f = none

module _ (ip : IpText) (b64 : Base64) where
  unfoldable pub encoded_value : RecordType → Str → Option ℤ → Option Str
  encoded_value txt value priority = encoded_or_none (Txt.parse value) (Txt.into_encoded b64)
  encoded_value a value priority = ip.ipv4 (trim value)
  encoded_value aaaa value priority = ip.ipv6 (trim value)
  encoded_value cname value priority =
      encoded_or_none (validate_domain_record_value (trim value))
        (λ _. to_fqdn_lowercase (trim value))
  encoded_value ns value priority =
      encoded_or_none (validate_domain_record_value (trim value))
        (λ _. to_fqdn_lowercase (trim value))
  encoded_value ptr value priority =
      encoded_or_none (validate_domain_record_value (trim value))
        (λ _. to_fqdn_lowercase (trim value))
  encoded_value mx value priority =
      encoded_or_none (do v ← Mx.parse (trim value) priority; Mx.validate v; ok v) Mx.encoded
  encoded_value srv value priority =
      encoded_or_none (do v ← Srv.parse (trim value) priority; Srv.validate v; ok v) Srv.encoded
  encoded_value soa value priority =
      encoded_or_none (do v ← Soa.parse (trim value); Soa.validate v; ok v) Soa.canonical
