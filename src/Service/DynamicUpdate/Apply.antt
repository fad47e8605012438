-- ===== src/Service/DynamicUpdate/Apply.antt =====
-- dynamic_update/mod.rs: the steps of an update and the transaction around them, with
-- zone/snapshot.rs.
pub mod Steps
pub mod Consistency
pub mod Isolation
pub mod Outcome
pub mod Growth
pub mod Transaction
use bindizr.Base.{
  ℕ, Bool, true, false, not, ◌&&◌, ◌||◌, List, [], ◌∷◌, Option, none, some, nat_eq, ◌==◌, list_eq,
  option_eq, if◌then◌else◌, any, filter, is_empty, ltb, Result, ok, err, ◌>>=◌, ◌>>◌, fail_if, ℤ,
  pos, int_eq,
}
use bindizr.Text.{Str, codes}
use bindizr.Text.Trim.{trim, trim_end_dots, strip_prefix}
use bindizr.Name.Label.{ParseNameError, outside_zone}
use bindizr.Name.Zone
use bindizr.Name.Zone.{ZoneName}
use bindizr.Name.Owner.{OwnerName, owner_eq, is_apex, parse_absolute_in_zone}
use bindizr.Record.Kind.{RecordType, soa, txt, type_eq}
use bindizr.Record.Value.{IpText}
use bindizr.Record.Txt.{Base64}
use bindizr.Record.Encode.{encoded_value}
use bindizr.Record.Mailbox.{from_email}
use bindizr.Record.Model.{Record, Zone, values_equal}
use bindizr.Service.Error.{ErrorCode, Service, invalid_zone, http_status}
use bindizr.Service.Serial.{generate_serial}
use bindizr.Service.Validation.{
  AddOutcome, new, duplicate, resolve_add, validate_delete_constraints,
}
use bindizr.Service.Authorization.{grants_write}
use bindizr.Service.Store.{
  ZonePolicy, ZoneSnapshot, Db, first_named, records_of, records_named, policies_of,
  insert_records_with_changes, delete_records_with_changes, set_serial, upsert_snapshot,
}
use bindizr.Service.DynamicUpdate.{
  DynamicUpdateError, refused, internal, lift, UpdateOp, add, delete_rrset, delete_rr,
  DynamicUpdate, owner_in_zone, find_zone, authorize_key, evaluate_prerequisites,
}

-- What a step leaves, and whether it changed the zone.
pub record Applied : Type 0 where
  pub changed : Bool
  pub db : Db

abbrev pub applied : Bool → Db → Applied
applied changed db = record { changed = changed; db = db }

abbrev pub matches_type : Option RecordType → Record → Bool
matches_type none r = true
matches_type (some t) r = r.record_type == t

abbrev pub matches_priority : Option ℤ → Record → Bool
matches_priority none r = true
matches_priority (some p) r = r.priority == some p

module _ (ip : IpText) where
  abbrev pub matches_value : Option Str → Record → Bool
  matches_value none r = true
  matches_value (some value) r = values_equal ip r.record_type r.value none value none

  -- The rows that `delete_matching` takes.
  abbrev pub is_matched : OwnerName → Option RecordType → Option Str → Option ℤ → Record → Bool
  is_matched owner t value priority r =
      r.name == owner
      && (matches_type t r
          && (matches_value value r && (matches_priority priority r && not (r.record_type == soa))))

  unfoldable pub delete_matching :
      Db
      → Zone
      → Str
      → Option RecordType
      → Option Str
      → Option ℤ
      → ℤ
      → Result DynamicUpdateError Applied
  delete_matching db zone name t value priority new_serial = do
    owner ← owner_in_zone name zone.name
    (let matched = filter (is_matched owner t value priority) (records_of zone.id db) in
        let deleted = delete_records_with_changes db zone.id new_serial matched in
        if is_empty matched then ok (applied false db) else do
          (elim (validate_delete_constraints zone matched) [ ok u ↦ ok tt | err e ↦ err refused ])
          ok (applied true deleted))

module _ (ip : IpText) (b64 : Base64) where
  -- TXT arrives encoded from the wire.
  abbrev pub stored_value : RecordType → Str → Option ℤ → Result DynamicUpdateError Str
  stored_value t value priority =
      if t == txt
      then ok value
      else elim (encoded_value ip b64 t value priority) [ none ↦ err refused | some v ↦ ok v ]

  abbrev pub new_record : Zone → OwnerName → RecordType → Str → ℤ → Option ℤ → Record
  new_record zone owner t value ttl priority = record {
    id = pos 0;
    name = owner;
    record_type = t;
    value = value;
    ttl = ttl;
    priority = priority;
    zone_id = zone.id;
  }

  abbrev pub insert_new : Db → Zone → ℤ → Record → AddOutcome → Applied
  insert_new db zone new_serial r duplicate = applied false db
  insert_new db zone new_serial r new =
      applied true (insert_records_with_changes db zone.id new_serial (r ∷ []))

  unfoldable pub add_record :
      Db → Zone → Str → RecordType → Str → ℤ → Option ℤ → ℤ → Result DynamicUpdateError Applied
  add_record db zone name t value ttl priority new_serial = do
    owner ← owner_in_zone name zone.name
    stored ← stored_value t value priority
    outcome ← lift (resolve_add ip (records_named zone.id owner db) owner t stored ttl priority)
    ok (insert_new db zone new_serial (new_record zone owner t stored ttl priority) outcome)

  unfoldable pub apply_op : Db → Zone → UpdateOp → ℤ → Result DynamicUpdateError Applied
  unfolding add_record delete_matching
  apply_op db zone (add name t value ttl priority) new_serial =
      add_record db zone name t value ttl priority new_serial
  apply_op db zone (delete_rrset name t) new_serial =
      delete_matching ip db zone name t none none new_serial
  apply_op db zone (delete_rr name t value priority) new_serial =
      delete_matching ip db zone name (some t) (some value) priority new_serial

  -- The loop over the updates.
  unfoldable pub apply_ops :
      Db → Zone → ℤ → Bool → List UpdateOp → Result DynamicUpdateError Applied
  unfolding apply_op
  apply_ops db zone new_serial changed [] = ok (applied changed db)
  apply_ops db zone new_serial changed (op ∷ ops) = do
    s ← apply_op db zone op new_serial
    apply_ops s.db zone new_serial (changed || s.changed) ops

abbrev pub snapshot_of : Zone → ℤ → Str → ZoneSnapshot
snapshot_of zone serial mailbox = record {
  zone_id = zone.id;
  serial = serial;
  primary_ns = zone.primary_ns;
  admin_email = mailbox;
  ttl = zone.ttl;
  refresh = zone.refresh;
  retry = zone.retry;
  expire = zone.expire;
  minimum_ttl = zone.minimum_ttl;
}

abbrev pub set_snapshots : List ZoneSnapshot → Db → Db
set_snapshots snapshots db = record {
  zones = db.zones;
  records = db.records;
  changes = db.changes;
  snapshots = snapshots;
  tsig_policies = db.tsig_policies;
  token_policies = db.token_policies;
  next_id = db.next_id;
}

-- `save_snapshot_tx`
unfoldable pub save_snapshot : Db → Zone → ℤ → Service Db
unfolding upsert_snapshot
save_snapshot db zone serial = elim (from_email zone.admin_email) [
  | none ↦ err invalid_zone
  | some mailbox ↦
      ok (set_snapshots (upsert_snapshot (snapshot_of zone serial mailbox) db.snapshots) db)
]

abbrev pub set_zones : List Zone → Db → Db
set_zones zones db = record {
  zones = zones;
  records = db.records;
  changes = db.changes;
  snapshots = db.snapshots;
  tsig_policies = db.tsig_policies;
  token_policies = db.token_policies;
  next_id = db.next_id;
}

-- `advance_serial_tx`
unfoldable pub advance_serial : Db → Zone → ℤ → Service Db
unfolding save_snapshot
advance_serial db zone new_serial =
    save_snapshot (set_zones (set_serial zone.id new_serial db.zones) db) zone new_serial

-- A change advances the serial, once.
unfoldable pub close_update : Applied → Zone → ℤ → Result DynamicUpdateError Applied
unfolding advance_serial
close_update s zone new_serial =
    if s.changed
    then (do db ← lift (advance_serial s.db zone new_serial); ok (applied true db))
    else ok s

module _ (ip : IpText) (b64 : Base64) where
  -- The body of the transaction.
  unfoldable pub run : Db → DynamicUpdate → Result DynamicUpdateError Applied
  unfolding apply_ops close_update
  run db update = do
    zone ← find_zone db update.zone_name
    authorize_key db zone update.key update.updates
    evaluate_prerequisites ip zone.name (records_of zone.id db) update.prerequisites
    new_serial ← lift (generate_serial (some zone.serial))
    s ← apply_ops ip b64 db zone new_serial false update.updates
    close_update s zone new_serial

-- `finish_tx` of repository.rs: a result and the database behind it. `commits` is whether the
-- database accepts the commit; the new rows are kept only then.
unfoldable pub finish_tx :
    Bool → Db → Result DynamicUpdateError Applied → Result DynamicUpdateError Bool × Db
finish_tx commits db (err e) = (err e, db)
finish_tx commits db (ok s) = if commits then (ok s.changed, s.db) else (err internal, db)

module _ (ip : IpText) (b64 : Base64) where
  -- `DynamicUpdateService::apply`; the NOTIFY that follows a change is left out.
  unfoldable pub apply : Bool → Db → DynamicUpdate → Result DynamicUpdateError Bool × Db
  unfolding run finish_tx
  apply commits db update = finish_tx commits db (run ip b64 db update)
