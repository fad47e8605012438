-- ===== src/Record/Model.antt =====
-- `Record` and the value rules of `RecordType` in model/record/mod.rs, and `Zone` of model/zone.
use bindizr.Base.{
  Bool, true, false, not, ◌&&◌, ◌||◌, [], Option, none, some, nat_eq, ◌==◌, list_eq, if◌then◌else◌,
  Result, ok, err, ◌>>=◌, ℤ, int_eq,
}
use bindizr.Text.{Str, to_ascii_lowercase}
use bindizr.Name.Zone.{ZoneName, to_fqdn_text}
use bindizr.Name.Owner.{OwnerName, is_apex}
use bindizr.Record.Kind.{RecordType, a, aaaa, cname, mx, txt, ns, soa, srv, ptr, type_eq}
use bindizr.Record.Value.{
  ValueError, takes_no_priority, bad_ipv4, bad_ipv6, IpText, validate_domain_record_value,
  to_fqdn_lowercase,
}
use bindizr.Record.Mx
use bindizr.Record.Srv
use bindizr.Record.Soa

-- The creation time, which no rule reads, is left out.
pub record Record : Type 0 where
  pub id : ℤ
  pub name : OwnerName
  pub record_type : RecordType
  pub value : Str
  pub ttl : ℤ
  pub priority : Option ℤ
  pub zone_id : ℤ

pub record Zone : Type 0 where
  pub id : ℤ
  pub name : ZoneName
  pub primary_ns : Str
  pub admin_email : Str
  pub ttl : ℤ
  pub serial : ℤ
  pub refresh : ℤ
  pub retry : ℤ
  pub expire : ℤ
  pub minimum_ttl : ℤ

abbrev takes_priority : RecordType → Bool
takes_priority t = t == mx || t == srv

abbrev is_some {ℓ} : {A : Type ℓ} → Option A → Bool
is_some none = false
is_some (some x) = true

-- A parse whose value is not kept.
abbrev check {ℓ} : {A : Type ℓ} → ValueError → Option A → Result ValueError (Unit {0})
check e none = err e
check e (some x) = ok tt

-- `unwrap_or` on a parsed value's canonical form.
abbrev canonical_or {ℓ} : {A : Type ℓ} → Result ValueError A → (A → Str) → Str → Str
canonical_or (ok v) f fallback = f v
canonical_or (err e) f fallback = fallback

abbrev text_or : Option Str → Str → Str
text_or none fallback = fallback
text_or (some t) fallback = t

module _ (ip : IpText) where
  unfoldable pub validate_by_type : RecordType → Str → Option ℤ → Result ValueError (Unit {0})
  validate_by_type a value priority = check bad_ipv4 (ip.ipv4 value)
  validate_by_type aaaa value priority = check bad_ipv6 (ip.ipv6 value)
  validate_by_type cname value priority = validate_domain_record_value value
  validate_by_type mx value priority = do v ← Mx.parse value priority; Mx.validate v
  validate_by_type txt value priority = ok tt
  validate_by_type ns value priority = validate_domain_record_value value
  validate_by_type soa value priority = do v ← Soa.parse value; Soa.validate v
  validate_by_type srv value priority = do v ← Srv.parse value priority; Srv.validate v
  validate_by_type ptr value priority = validate_domain_record_value value

  -- `RecordType::validate_value`
  unfoldable pub validate_value : RecordType → Str → Option ℤ → Result ValueError (Unit {0})
  unfolding validate_by_type
  validate_value t value priority =
      if is_some priority && not (takes_priority t)
      then err takes_no_priority
      else validate_by_type t value priority

  -- `RecordType::canonical_value`: the one form in which two values are compared. For the types
  -- that are one name the parsed value's form and the fallback are the same.
  unfoldable pub canonical_value : RecordType → Str → Option ℤ → Str
  canonical_value a value priority = text_or (ip.ipv4 value) value
  canonical_value aaaa value priority = text_or (ip.ipv6 value) value
  canonical_value cname value priority =
      canonical_or (validate_domain_record_value value) (λ _. to_fqdn_lowercase value)
        (to_fqdn_lowercase value)
  canonical_value mx value priority = canonical_or (Mx.parse value priority) Mx.canonical value
  canonical_value txt value priority = value
  canonical_value ns value priority =
      canonical_or (validate_domain_record_value value) (λ _. to_fqdn_lowercase value)
        (to_fqdn_lowercase value)
  canonical_value soa value priority = canonical_or (Soa.parse value) Soa.canonical value
  canonical_value srv value priority = canonical_or (Srv.parse value priority) Srv.canonical value
  canonical_value ptr value priority =
      canonical_or (validate_domain_record_value value) (λ _. to_fqdn_lowercase value)
        (to_fqdn_lowercase value)

  -- `RecordType::values_equal`
  unfoldable pub values_equal : RecordType → Str → Option ℤ → Str → Option ℤ → Bool
  values_equal t left left_priority right right_priority =
      canonical_value t left left_priority == canonical_value t right right_priority

-- `Zone::is_apex_ns`
abbrev pub is_apex_ns : RecordType → OwnerName → Bool
is_apex_ns t name = t == ns && is_apex name

-- `Zone::is_primary_ns`; `eq_ignore_ascii_case` compares the lower-case texts.
unfoldable pub is_primary_ns : Zone → RecordType → OwnerName → Str → Bool
is_primary_ns zone t name value =
    is_apex_ns t name
    && to_ascii_lowercase (to_fqdn_text value) == to_ascii_lowercase (to_fqdn_text zone.primary_ns)

-- `Zone::primary_ns_record`
unfoldable pub primary_ns_record : Zone → ℤ → Record
primary_ns_record zone ttl = record {
  id = ℤ.pos 0;
  name = record { labels = [] };
  record_type = ns;
  value = zone.primary_ns;
  ttl = ttl;
  priority = none;
  zone_id = zone.id;
}
