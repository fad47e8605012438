-- ===== src/Service/Writes.antt =====
-- record/create.rs and record/delete.rs, with the parts that the record service's writes share:
-- record/bulk.rs, types/record.rs and the rows that zone/get.rs and repository.rs find.
pub mod Update
pub mod Bulk
pub mod Effect
pub mod RoundTrip
pub mod Deletion
pub mod Locked
pub mod Granted
pub mod Outcome
pub mod Replacement
pub mod Batch
pub mod Consistency
use bindizr.Base.{
  Bool, true, false, not, ◌&&◌, List, [], ◌∷◌, Option, none, some, nat_eq, ◌==◌, list_eq, option_eq,
  if◌then◌else◌, Result, ok, err, ◌>>=◌, ◌>>◌, ok_or, fail_if, ℤ, pos, int_eq,
}
use bindizr.Text.{Str}
use bindizr.Name.Zone.{ZoneName}
use bindizr.Name.Owner.{OwnerName, owner_eq, parse_in_zone}
use bindizr.Record.Kind.{RecordType, Uppercase, as_str, from_str, txt, type_eq}
use bindizr.Record.Value.{IpText}
use bindizr.Record.Txt.{Base64, from_string, from_segments, into_encoded}
use bindizr.Record.Encode.{encoded_value}
use bindizr.Record.Model.{Record, Zone}
use bindizr.Service.Error.{
  ErrorCode, Service, invalid_input, invalid_record_name, invalid_record_value, zone_not_found,
  record_not_found, internal,
}
use bindizr.Service.Serial.{generate_serial}
use bindizr.Service.Validation.{validate_add, validate_delete_constraints}
use bindizr.Service.Authorization.{Caller, RecordWrite, zone_visible, authorize_record_writes}
use bindizr.Service.Store.{
  Db, first_named, records_named, with_ids, insert_records_with_changes,
  delete_records_with_changes,
}
use bindizr.Service.DynamicUpdate.{normalize_zone_name}
use bindizr.Service.DynamicUpdate.Apply.{advance_serial}

-- `RecordValueRequest`
pub data RecordValueRequest : Type 0 where
  string : Str → RecordValueRequest
  segments : List Str → RecordValueRequest

abbrev or_invalid_value {ℓ} : {A : Type ℓ} → Option A → Service A
or_invalid_value none = err invalid_record_value
or_invalid_value (some a) = ok a

pub record PreparedRecord : Type 0 where
  pub owner_name : Str
  pub record_type : RecordType
  pub value : Str
  pub ttl : Option ℤ
  pub priority : Option ℤ

unfoldable pub parse_record_type : Uppercase → Str → Service RecordType
parse_record_type u value = ok_or invalid_input (from_str u value)

unfoldable pub normalize_record_owner_name : Str → ZoneName → Service OwnerName
normalize_record_owner_name name zone = elim (parse_in_zone name zone) [
  | ok owner ↦ ok owner
  | err e ↦ err invalid_record_name
]

module _ (ip : IpText) (b64 : Base64) where
  unfoldable pub to_encoded_value : RecordValueRequest → RecordType → Option ℤ → Service Str
  to_encoded_value (string value) t priority =
      if t == txt
      then ok (into_encoded b64 (from_string value))
      else or_invalid_value (encoded_value ip b64 t value priority)
  to_encoded_value (segments texts) t priority =
      if t == txt
      then elim (from_segments texts) [
        | ok rdata ↦ ok (into_encoded b64 rdata)
        | err e ↦ err invalid_record_value
      ]
      else err invalid_record_value

  unfoldable pub prepare_record :
      Uppercase → Str → Str → RecordValueRequest → Option ℤ → Option ℤ → Service PreparedRecord
  unfolding parse_record_type to_encoded_value
  prepare_record u name record_type value ttl priority = do
    t ← parse_record_type u record_type
    encoded ← to_encoded_value value t priority
    ok (record {
      owner_name = name;
      record_type = t;
      value = encoded;
      ttl = ttl;
      priority = priority;
    })

-- `get_by_name_tx` of zone/get.rs
unfoldable pub get_by_name : Db → Str → Service Zone
get_by_name db name = do
  lookup ← normalize_zone_name name
  ok_or zone_not_found (first_named lookup.text db.zones)

abbrev pub zone_with_id : ℤ → List Zone → Option Zone
zone_with_id id [] = none
zone_with_id id (z ∷ zs) = if z.id == id then some z else zone_with_id id zs

-- `get_record_by_id`
abbrev pub record_with_id : ℤ → List Record → Option Record
record_with_id id [] = none
record_with_id id (r ∷ rs) = if r.id == id then some r else record_with_id id rs

abbrev pub ttl_or : Option ℤ → ℤ → ℤ
ttl_or none ttl = ttl
ttl_or (some t) ttl = t

-- The row of a write, and the tables behind it.
pub record Written {ℓ} (A : Type ℓ) : Type ℓ where
  pub value : A
  pub db : Db

abbrev pub written {ℓ} : {A : Type ℓ} → A → Db → Written A
written a db = record { value = a; db = db }

-- `finish_tx`: the rows that a transaction wrote are kept only if it succeeded and the database
-- accepts the commit.
unfoldable pub finish_tx {ℓ} : {A : Type ℓ} → Bool → Db → Service (Written A) → Service A × Db
finish_tx commits db (err e) = (err e, db)
finish_tx commits db (ok w) = if commits then (ok w.value, w.db) else (err internal, db)

pub record CreateRecordRequest : Type 0 where
  pub name : Str
  pub record_type : Str
  pub value : RecordValueRequest
  pub ttl : Option ℤ
  pub priority : Option ℤ
  pub zone_name : Str

-- The row to insert, before it has an id.
abbrev pub candidate : Zone → OwnerName → RecordType → Str → ℤ → Option ℤ → Record
candidate zone owner t value ttl priority = record {
  id = pos 0;
  name = owner;
  record_type = t;
  value = value;
  ttl = ttl;
  priority = priority;
  zone_id = zone.id;
}

-- `Vec::pop`
abbrev pub pop_row : List Record → Option Record
pop_row [] = none
pop_row (r ∷ rs) = elim (pop_row rs) [ none ↦ some r | some s ↦ some s ]

abbrev pub write_of : OwnerName → RecordType → RecordWrite
write_of owner t = record { relative_name = owner; record_type = some t }

module _ (ip : IpText) where
  -- The body of the transaction of `create`.
  unfoldable pub create_in_tx : Caller → Str → PreparedRecord → Db → Service (Written Record)
  unfolding get_by_name normalize_record_owner_name
  create_in_tx caller zone_name p db = do
    zone ← get_by_name db zone_name
    owner ← normalize_record_owner_name p.owner_name zone.name
    authorize_record_writes db caller zone (write_of owner p.record_type ∷ [])
    validate_add ip (records_named zone.id owner db) owner p.record_type p.value
        (ttl_or p.ttl zone.ttl) p.priority none
    new_serial ← generate_serial (some zone.serial)
    (let rows =
          candidate zone owner p.record_type p.value (ttl_or p.ttl zone.ttl) p.priority ∷ [] in
        do
          created ← ok_or internal (pop_row (with_ids db.next_id rows))
          after ←
              advance_serial (insert_records_with_changes db zone.id new_serial rows) zone
                new_serial
          ok (written created after))

module _ (ip : IpText) (b64 : Base64) (u : Uppercase) where
  -- `RecordService::create`. The NOTIFY behind a write is left out, here and below.
  unfoldable pub create : Bool → Caller → CreateRecordRequest → Db → Service Record × Db
  unfolding prepare_record create_in_tx finish_tx
  create commits caller r db =
      elim (prepare_record ip b64 u r.name r.record_type r.value r.ttl r.priority) [
        | err e ↦ (err e, db)
        | ok p ↦ finish_tx commits db (create_in_tx ip caller r.zone_name p db)
      ]

-- The record that a write names, inside the transaction: it must still be in the zone where it was
-- seen, and the zone must be visible to the caller.
unfoldable pub locate : Caller → ℤ → ℤ → Db → Service (Zone × Record)
locate caller zone_id record_id db = do
  zone ← ok_or zone_not_found (zone_with_id zone_id db.zones)
  existing ← ok_or record_not_found (record_with_id record_id db.records)
  fail_if (not (existing.zone_id == zone.id)) record_not_found
  fail_if (not (zone_visible caller zone.id)) record_not_found
  ok (zone, existing)

-- `DeletedRecord`: what the transaction hands out for the log.
pub record DeletedRecord : Type 0 where
  pub zone_name : ZoneName
  pub record_name : OwnerName
  pub record_type : Str
  pub record_value : Str
  pub record_id : ℤ

abbrev deleted_record : Zone → Record → DeletedRecord
deleted_record zone r = record {
  zone_name = zone.name;
  record_name = r.name;
  record_type = as_str r.record_type;
  record_value = r.value;
  record_id = r.id;
}

-- The body of the transaction of `delete_by_id`.
unfoldable pub delete_in_tx : Caller → ℤ → ℤ → Db → Service (Written DeletedRecord)
unfolding locate
delete_in_tx caller zone_id record_id db = do
  found ← locate caller zone_id record_id db
  (let zone = found.0 in
      let existing = found.1 in
      do
        authorize_record_writes db caller zone (write_of existing.name existing.record_type ∷ [])
        new_serial ← generate_serial (some zone.serial)
        validate_delete_constraints zone (existing ∷ [])
        after ←
            advance_serial (delete_records_with_changes db zone.id new_serial (existing ∷ [])) zone
              new_serial
        ok (written (deleted_record zone existing) after))

-- The answer of a deletion says no more than that it was done.
abbrev pub done : Service DeletedRecord → Service (Unit {0})
done (err e) = err e
done (ok deleted) = ok tt

-- `RecordService::delete_by_id`. `seen` are the tables of the read before the transaction, which
-- another writer may have changed by `db`.
unfoldable pub delete_by_id : Bool → Caller → ℤ → Db → Db → Service (Unit {0}) × Db
unfolding delete_in_tx finish_tx
delete_by_id commits caller record_id seen db = elim (record_with_id record_id seen.records) [
  | none ↦ (err record_not_found, db)
  | some r ↦
      let outcome = finish_tx commits db (delete_in_tx caller r.zone_id record_id db) in
      (done outcome.0, outcome.1)
]
