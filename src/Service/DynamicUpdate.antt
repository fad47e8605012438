-- ===== src/Service/DynamicUpdate.antt =====
-- dynamic_update/mod.rs and prerequisite.rs: RFC 2136 updates, as one transaction: who may send them, and what the
-- zone must satisfy first.
pub mod Apply
use bindizr.Base.{
  ℕ, Bool, true, false, not, ◌&&◌, ◌||◌, List, [], ◌∷◌, Option, none, some, nat_eq, ◌==◌, list_eq,
  option_eq, if◌then◌else◌, any, filter, is_empty, ltb, Result, ok, err, ◌>>=◌, ◌>>◌, fail_if, ℤ,
  pos, int_eq,
}
use bindizr.Text.{Str, codes}
use bindizr.Text.Trim.{trim, trim_end_dots, strip_prefix}
use bindizr.Name.Label.{ParseNameError, outside_zone}
use bindizr.Name.Zone
use bindizr.Name.Zone.{ZoneName}
use bindizr.Name.Owner.{OwnerName, owner_eq, is_apex, parse_absolute_in_zone}
use bindizr.Record.Kind.{RecordType, soa, txt, type_eq}
use bindizr.Record.Value.{IpText}
use bindizr.Record.Txt.{Base64}
use bindizr.Record.Encode.{encoded_value}
use bindizr.Record.Mailbox.{from_email}
use bindizr.Record.Model.{Record, Zone, values_equal}
use bindizr.Service.Error.{ErrorCode, Service, invalid_zone, http_status}
use bindizr.Service.Serial.{generate_serial}
use bindizr.Service.Validation.{
  AddOutcome, new, duplicate, resolve_add, validate_delete_constraints,
}
use bindizr.Service.Authorization.{grants_write}
use bindizr.Service.Store.{
  ZonePolicy, ZoneSnapshot, Db, first_named, records_of, records_named, policies_of,
  insert_records_with_changes, delete_records_with_changes, set_serial, upsert_snapshot,
}

pub data DynamicUpdateError : Type 0 where
  refused yx_domain yx_rrset nx_domain nx_rrset not_zone internal : DynamicUpdateError

-- `From<ServiceError>`
abbrev pub of_service : ErrorCode → DynamicUpdateError
of_service e = if ltb (http_status e) 500 then refused else internal

abbrev pub lift {ℓ} : {A : Type ℓ} → Service A → Result DynamicUpdateError A
lift (ok a) = ok a
lift (err e) = err (of_service e)

pub data Prerequisite : Type 0 where
  name_in_use name_not_in_use : (name : Str) → Prerequisite
  rrset_in_use rrset_not_in_use : (name : Str) (record_type : RecordType) → Prerequisite
  rr_in_use :
      (name : Str) (record_type : RecordType) (value : Str) (priority : Option ℤ) → Prerequisite

pub data UpdateOp : Type 0 where
  add :
      (name : Str) (record_type : RecordType) (value : Str) (ttl : ℤ) (priority : Option ℤ)
      → UpdateOp
  delete_rrset : (name : Str) (record_type : Option RecordType) → UpdateOp
  delete_rr : (name : Str) (record_type : RecordType) (value : Str) (priority : Option ℤ) → UpdateOp

abbrev pub op_name : UpdateOp → Str
op_name (add name record_type value ttl priority) = name
op_name (delete_rrset name record_type) = name
op_name (delete_rr name record_type value priority) = name

-- The type that an update touches; none for a deletion of the whole name.
abbrev pub op_type : UpdateOp → Option RecordType
op_type (add name record_type value ttl priority) = some record_type
op_type (delete_rrset name record_type) = record_type
op_type (delete_rr name record_type value priority) = some record_type

-- The signing key's part that the update reads; its name, algorithm and secret are left out.
pub record TsigKey : Type 0 where
  pub id : ℤ
  pub is_global : Bool

pub record DynamicUpdate : Type 0 where
  pub zone_name : Str
  pub key : Option TsigKey
  pub prerequisites : List Prerequisite
  pub updates : List UpdateOp

abbrev of_name_error : ParseNameError → DynamicUpdateError
of_name_error outside_zone = not_zone
of_name_error _ = refused

unfoldable pub owner_in_zone : Str → ZoneName → Result DynamicUpdateError OwnerName
owner_in_zone name zone =
    if is_empty (trim_end_dots name)
    then err not_zone
    else elim (parse_absolute_in_zone name zone) [
      | ok owner ↦ ok owner
      | err e ↦ err (of_name_error e)
    ]

-- `normalize_zone_name` of zone/validation.rs
abbrev starts_with : Str → Str → Bool
starts_with p s = elim (strip_prefix p s) [ none ↦ false | some t ↦ true ]

unfoldable pub normalize_zone_name : Str → Service ZoneName
normalize_zone_name value =
    let trimmed = trim value in
    if trimmed == codes "."
    then err invalid_zone
    else if starts_with (codes "*.") trimmed || trimmed == codes "*"
    then err invalid_zone
    else elim (Zone.parse trimmed) [ ok z ↦ ok z | err e ↦ err invalid_zone ]

abbrev pub located : Option Zone → Result DynamicUpdateError Zone
located none = err not_zone
located (some zone) = ok zone

-- `find_by_name_tx`, and its absence as NOTZONE
unfoldable pub find_zone : Db → Str → Result DynamicUpdateError Zone
unfolding normalize_zone_name
find_zone db name = do
  lookup ← lift (normalize_zone_name name)
  located (first_named lookup.text db.zones)

-- `authorize_update` of zone/tsig_policy/mod.rs
unfoldable pub authorize_update : List ZonePolicy → OwnerName → Option RecordType → Bool
authorize_update policies name t = any (grants_write name t) policies

unfoldable pub authorize_ops :
    List ZonePolicy → ZoneName → List UpdateOp → Result DynamicUpdateError (Unit {0})
unfolding authorize_update
authorize_ops policies zone [] = ok tt
authorize_ops policies zone (op ∷ ops) = do
  owner ← owner_in_zone (op_name op) zone
  fail_if (not (authorize_update policies owner (op_type op))) refused
  authorize_ops policies zone ops

-- `authorize_key`; a request that was accepted unsigned has no key.
unfoldable pub authorize_key :
    Db → Zone → Option TsigKey → List UpdateOp → Result DynamicUpdateError (Unit {0})
unfolding authorize_ops
authorize_key db zone none ops = ok tt
authorize_key db zone (some key) ops =
    let policies = policies_of zone.id key.id db.tsig_policies in
    if key.is_global
    then ok tt
    else if is_empty policies
    then err refused
    else authorize_ops policies zone.name ops

abbrev pub owner_exists : OwnerName → List Record → Bool
owner_exists owner rs = is_apex owner || any (λ r. r.name == owner) rs

abbrev pub rrset_exists : OwnerName → RecordType → List Record → Bool
rrset_exists owner t rs = any (λ r. r.name == owner && r.record_type == t) rs

module _ (ip : IpText) where
  abbrev pub rr_exists : OwnerName → RecordType → Str → Option ℤ → List Record → Bool
  rr_exists owner t value priority rs =
      any
        (λ r.
          r.name == owner
          && (r.record_type == t
              && (values_equal ip r.record_type r.value none value none && r.priority == priority)))
        rs

  -- One arm each of `evaluate_against_records`.
  unfoldable pub check_prerequisite :
      ZoneName → List Record → Prerequisite → Result DynamicUpdateError (Unit {0})
  check_prerequisite zone rs (name_in_use name) = do
    owner ← owner_in_zone name zone
    fail_if (not (owner_exists owner rs)) nx_domain
  check_prerequisite zone rs (name_not_in_use name) = do
    owner ← owner_in_zone name zone
    fail_if (owner_exists owner rs) yx_domain
  check_prerequisite zone rs (rrset_in_use name t) = do
    owner ← owner_in_zone name zone
    fail_if (not (rrset_exists owner t rs)) nx_rrset
  check_prerequisite zone rs (rrset_not_in_use name t) = do
    owner ← owner_in_zone name zone
    fail_if (rrset_exists owner t rs) yx_rrset
  check_prerequisite zone rs (rr_in_use name t value priority) = do
    owner ← owner_in_zone name zone
    fail_if (not (rr_exists owner t value priority rs)) nx_rrset

  unfoldable pub evaluate_prerequisites :
      ZoneName → List Record → List Prerequisite → Result DynamicUpdateError (Unit {0})
  unfolding check_prerequisite
  evaluate_prerequisites zone rs [] = ok tt
  evaluate_prerequisites zone rs (p ∷ ps) = do
    check_prerequisite zone rs p
    evaluate_prerequisites zone rs ps
