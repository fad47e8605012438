-- ===== src/Service/Writes/Update.antt =====
-- record/update.rs: a full replacement, a patch, and the locked update behind both.
use bindizr.Base.{
  Bool, true, false, not, ◌&&◌, ◌||◌, List, [], ◌∷◌, ◌++◌, map, Option, none, some, nat_eq, ◌==◌,
  list_eq, if◌then◌else◌, ok, err, ◌>>=◌, ◌>>◌, fail_if, ℤ, int_eq,
}
use bindizr.Text.{Str}
use bindizr.Name.Owner.{OwnerName}
use bindizr.Record.Kind.{RecordType, Uppercase, mx, srv, type_eq}
use bindizr.Record.Value.{IpText}
use bindizr.Record.Txt.{Base64}
use bindizr.Record.Model.{Record, Zone}
use bindizr.Service.Error.{Service, invalid_input, record_not_found}
use bindizr.Service.Serial.{generate_serial}
use bindizr.Service.Validation.{validate_update}
use bindizr.Service.Authorization.{Caller, authorize_record_writes}
use bindizr.Service.Store.{Db, records_named, set_tables, zone_changes_for, op_add, op_del}
use bindizr.Service.DynamicUpdate.Apply.{advance_serial}
use bindizr.Service.Writes.{
  RecordValueRequest, parse_record_type, normalize_record_owner_name, to_encoded_value,
  prepare_record, record_with_id, ttl_or, Written, written, finish_tx, write_of, locate,
}

pub record ResolvedRecordUpdate : Type 0 where
  pub owner_name : OwnerName
  pub record_type : RecordType
  pub encoded_value : Str
  pub ttl : ℤ
  pub priority : Option ℤ

pub record RecordItem : Type 0 where
  pub name : Str
  pub record_type : Str
  pub value : RecordValueRequest
  pub ttl : Option ℤ
  pub priority : Option ℤ

-- `UpdateRecordPatch`
pub record UpdateRecordPatch : Type 0 where
  pub name : Option Str
  pub record_type : Option Str
  pub value : Option RecordValueRequest
  pub ttl : Option ℤ
  pub priority : Option ℤ

abbrev pub Resolve : Type 0
Resolve = Zone → Record → Service ResolvedRecordUpdate

abbrev pub candidate_updated : Zone → Record → ResolvedRecordUpdate → Record
candidate_updated zone existing r = record {
  id = existing.id;
  name = r.owner_name;
  record_type = r.record_type;
  value = r.encoded_value;
  ttl = r.ttl;
  priority = r.priority;
  zone_id = zone.id;
}

-- `update_record_tx`
abbrev pub replace_row : Record → List Record → List Record
replace_row updated rs = map (λ r. if r.id == updated.id then updated else r) rs

-- The row in place, and its DEL and ADD changes.
unfoldable pub update_record_with_changes : Db → ℤ → ℤ → Record → Record → Db
update_record_with_changes db zone_id serial existing updated =
    set_tables db (replace_row updated db.records)
      (db.changes
        ++ (zone_changes_for zone_id serial op_del (existing ∷ [])
            ++ zone_changes_for zone_id serial op_add (updated ∷ [])))
      db.next_id

module _ (ip : IpText) where
  -- The body of the transaction of `update_locked`.
  unfoldable pub update_in_tx : Caller → Resolve → ℤ → ℤ → Db → Service (Written Record)
  unfolding locate update_record_with_changes
  update_in_tx caller resolve zone_id record_id db = do
    found ← locate caller zone_id record_id db
    (let zone = found.0 in
        let existing = found.1 in
        do
          resolved ← resolve zone existing
          authorize_record_writes db caller zone (
              write_of existing.name existing.record_type
              ∷ write_of resolved.owner_name resolved.record_type
              ∷ [])
          (let updated = candidate_updated zone existing resolved in
              do
                validate_update ip zone (records_named zone.id resolved.owner_name db) existing
                    updated
                new_serial ← generate_serial (some zone.serial)
                after ←
                    advance_serial
                      (update_record_with_changes db zone.id new_serial existing updated) zone
                      new_serial
                ok (written updated after)))

  -- `update_locked`. `seen` are the tables of the read before the transaction.
  unfoldable pub update_locked : Bool → Caller → Resolve → ℤ → Db → Db → Service Record × Db
  unfolding update_in_tx finish_tx
  update_locked commits caller resolve record_id seen db =
      elim (record_with_id record_id seen.records) [
        | none ↦ (err record_not_found, db)
        | some r ↦ finish_tx commits db (update_in_tx caller resolve r.zone_id record_id db)
      ]

abbrev or_else : Option ℤ → Option ℤ → Option ℤ
or_else none b = b
or_else (some a) b = some a

abbrev is_none {ℓ} : {A : Type ℓ} → Option A → Bool
is_none none = true
is_none (some a) = false

module _ (ip : IpText) (b64 : Base64) (u : Uppercase) where
  -- The closure of `update_by_id`.
  unfoldable pub resolve_item : RecordItem → Resolve
  unfolding prepare_record normalize_record_owner_name
  resolve_item item zone existing = do
    p ← prepare_record ip b64 u item.name item.record_type item.value item.ttl item.priority
    owner ← normalize_record_owner_name p.owner_name zone.name
    ok (record {
      owner_name = owner;
      record_type = p.record_type;
      encoded_value = p.value;
      ttl = ttl_or item.ttl zone.ttl;
      priority = item.priority;
    })

  abbrev pub patched_type : Option Str → RecordType → Service RecordType
  patched_type none t = ok t
  patched_type (some text) t = parse_record_type u text

  abbrev pub patched_value : Option RecordValueRequest → RecordType → Option ℤ → Str → Service Str
  patched_value none t priority stored = ok stored
  patched_value (some value) t priority stored = to_encoded_value ip b64 value t priority

  abbrev pub patched_owner : Option Str → Zone → OwnerName → Service OwnerName
  patched_owner none zone stored = ok stored
  patched_owner (some name) zone stored = normalize_record_owner_name name zone.name

  -- The closure of `patch_by_id`: an omitted field keeps what is stored, but a new type asks for a
  -- value and only MX and SRV keep a priority.
  unfoldable pub resolve_patch : UpdateRecordPatch → Resolve
  unfolding parse_record_type to_encoded_value normalize_record_owner_name
  resolve_patch patch zone existing = do
    t ← patched_type patch.record_type existing.record_type
    fail_if (not (t == existing.record_type) && is_none patch.value) invalid_input
    (let priority =
          if t == mx || t == srv then or_else patch.priority existing.priority else none in
        do
          encoded ← patched_value patch.value t priority existing.value
          owner ← patched_owner patch.name zone existing.name
          ok (record {
            owner_name = owner;
            record_type = t;
            encoded_value = encoded;
            ttl = ttl_or patch.ttl existing.ttl;
            priority = priority;
          }))

  unfoldable pub update_by_id : Bool → Caller → ℤ → RecordItem → Db → Db → Service Record × Db
  unfolding update_locked resolve_item
  update_by_id commits caller record_id item seen db =
      update_locked ip commits caller (resolve_item item) record_id seen db

  unfoldable pub patch_by_id : Bool → Caller → ℤ → UpdateRecordPatch → Db → Db → Service Record × Db
  unfolding update_locked resolve_patch
  patch_by_id commits caller record_id patch seen db =
      update_locked ip commits caller (resolve_patch patch) record_id seen db
