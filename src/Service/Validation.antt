-- ===== src/Service/Validation.antt =====
-- record/validation/mod.rs: the rules that a zone's records keep among themselves.
pub mod Rules
pub mod Sound
pub mod Invariant
use bindizr.Base.{
  ℕ, Bool, true, false, not, ◌&&◌, ◌||◌, List, [], ◌∷◌, Option, none, some, nat_eq, ◌==◌, list_eq,
  if◌then◌else◌, any, filter, is_empty, Result, ok, err, ◌>>=◌, ◌>>◌, fail_if, ℤ, int_eq,
}
use bindizr.Text.{Str}
use bindizr.Name.Owner.{OwnerName, owner_eq, is_apex}
use bindizr.Record.Kind.{RecordType, cname, mx, ns, soa, type_eq}
use bindizr.Record.Value.{IpText}
use bindizr.Record.Mx.{is_null_value}
use bindizr.Record.Model.{Record, Zone, validate_value, values_equal, is_primary_ns}
use bindizr.Service.Error.{
  ErrorCode, Service, invalid_input, invalid_record_name, invalid_record_value, record_conflict,
}

-- `except_record_id.map(|id| id != r.id).unwrap_or(true)`
abbrev pub not_excepted : Option ℤ → ℤ → Bool
not_excepted none id = true
not_excepted (some except) id = not (except == id)

-- The records that a candidate is checked against: those with its name, but for the excepted one.
abbrev pub shares_name : OwnerName → Option ℤ → Record → Bool
shares_name name except r = r.name == name && not_excepted except r.id

module _ (ip : IpText) where
  unfoldable pub validate_record_value : RecordType → Str → Option ℤ → Service (Unit {0})
  validate_record_value t value priority = elim (validate_value ip t value priority) [
    | ok u ↦ ok tt
    | err e ↦ err invalid_record_value
  ]

  abbrev pub same_rdata : RecordType → Str → Option ℤ → Record → Bool
  same_rdata t value priority r =
      r.record_type == t && values_equal ip t r.value r.priority value priority

  unfoldable pub has_matching_rdata : List Record → RecordType → Str → Option ℤ → Bool
  has_matching_rdata rs t value priority = any (same_rdata t value priority) rs

abbrev pub is_type : RecordType → Record → Bool
is_type t r = r.record_type == t

abbrev pub is_null_mx_record : Record → Bool
is_null_mx_record r = r.record_type == mx && is_null_value r.value r.priority

-- What an add resolves to against the records already in the zone.
pub data AddOutcome : Type 0 where
  new duplicate : AddOutcome

-- A null MX stands alone among the MX records of its name.
unfoldable pub null_mx_conflict : List Record → Str → Option ℤ → Bool
null_mx_conflict existing value priority =
    let adding_null_mx = is_null_value value priority in
    let has_existing_null_mx = any is_null_mx_record existing in
    let has_existing_mx = any (is_type mx) existing in
    adding_null_mx && has_existing_mx || not adding_null_mx && has_existing_null_mx

abbrev pub other_ttl : RecordType → ℤ → Record → Bool
other_ttl t ttl r = r.record_type == t && not (r.ttl == ttl)

module _ (ip : IpText) where
  -- The checks against the records that share the name, and those of the name itself behind them.
  unfoldable pub check_against :
      List Record → OwnerName → RecordType → Str → ℤ → Option ℤ → Service (Unit {0})
  check_against existing name t value ttl priority = do
    fail_if (has_matching_rdata ip existing t value priority) record_conflict
    fail_if (t == mx && null_mx_conflict existing value priority) record_conflict
    fail_if (not (is_empty existing) && t == cname) record_conflict
    fail_if (not (is_empty existing) && any (is_type cname) existing) record_conflict
    fail_if (t == ns && not (is_apex name)) invalid_record_name
    fail_if (any (other_ttl t ttl) existing) record_conflict

  -- `validate_record_add_constraints_normalized`
  unfoldable pub validate_add :
      List Record → OwnerName → RecordType → Str → ℤ → Option ℤ → Option ℤ → Service (Unit {0})
  unfolding check_against
  validate_add zone_records name t value ttl priority except = do
    fail_if (t == soa) invalid_input
    validate_record_value ip t value priority
    fail_if (t == cname && is_apex name) invalid_record_name
    check_against (filter (shares_name name except) zone_records) name t value ttl priority

  -- `validate_record_update_constraints_normalized`
  unfoldable pub validate_update : Zone → List Record → Record → Record → Service (Unit {0})
  unfolding validate_add
  validate_update zone zone_records existing updated = do
    fail_if (updated.record_type == soa) invalid_input
    validate_add zone_records updated.name updated.record_type updated.value updated.ttl
        updated.priority (some existing.id)
    fail_if
        (is_primary_ns zone existing.record_type existing.name existing.value
          && not (is_primary_ns zone updated.record_type updated.name updated.value))
        invalid_input

  -- `validate_add_tx`, on the zone's records with the owner's name.
  unfoldable pub resolve_add :
      List Record → OwnerName → RecordType → Str → ℤ → Option ℤ → Service AddOutcome
  unfolding validate_add has_matching_rdata
  resolve_add zone_records name t value ttl priority =
      if has_matching_rdata ip zone_records t value priority
      then ok duplicate
      else do validate_add zone_records name t value ttl priority none; ok new

-- `validate_delete_constraints`
unfoldable pub validate_delete_constraints : Zone → List Record → Service (Unit {0})
validate_delete_constraints zone deleting = do
  fail_if (any (is_type soa) deleting) invalid_input
  fail_if (any (λ r. is_primary_ns zone r.record_type r.name r.value) deleting) invalid_input
