-- ===== src/Service/Writes/Bulk.antt =====
-- `create_bulk` of record/bulk.rs: all of a batch of records, or none.
use bindizr.Base.{
  Bool, List, [], ◌∷◌, ◌++◌, none, some, nat_eq, ◌==◌, list_eq, if◌then◌else◌, any, filter,
  is_empty, ok, err, ◌>>=◌, ◌>>◌, map_result, ℤ, int_eq,
}
use bindizr.Text.{Str}
use bindizr.Name.Zone.{ZoneName}
use bindizr.Name.Owner.{owner_eq}
use bindizr.Record.Kind.{Uppercase}
use bindizr.Record.Value.{IpText}
use bindizr.Record.Txt.{Base64}
use bindizr.Record.Model.{Record, Zone}
use bindizr.Service.Error.{Service, invalid_input}
use bindizr.Service.Serial.{generate_serial}
use bindizr.Service.Validation.{validate_add}
use bindizr.Service.Authorization.{Caller, RecordWrite, authorize_record_writes}
use bindizr.Service.Store.{Db, records_of, with_ids, insert_records_with_changes}
use bindizr.Service.DynamicUpdate.Apply.{advance_serial}
use bindizr.Service.Writes.{
  PreparedRecord, normalize_record_owner_name, prepare_record, get_by_name, ttl_or, Written,
  written, finish_tx, candidate, write_of,
}
use bindizr.Service.Writes.Update.{RecordItem}

-- The writes that a batch asks leave for; a name that will not parse lists none.
unfoldable pub writes_of : ZoneName → List PreparedRecord → List RecordWrite
unfolding normalize_record_owner_name
writes_of zone [] = []
writes_of zone (p ∷ ps) =
    let rest = writes_of zone ps in
    elim (normalize_record_owner_name p.owner_name zone) [
      | ok owner ↦ write_of owner p.record_type ∷ rest
      | err e ↦ rest
    ]

-- `list_records_by_zone_id_and_names_tx`: sorting and deduplicating the names changes no row.
abbrev pub records_named_in : ℤ → List RecordWrite → Db → List Record
records_named_in id ws db =
    filter (λ (r : Record). any (λ (w : RecordWrite). w.relative_name == r.name) ws)
      (records_of id db)

module _ (ip : IpText) where
  -- The loop over the batch. The map from names to records is one list, `known`: a name's vector is
  -- the part of it with that name. The result is the rows to insert.
  unfoldable pub validate_batch : Zone → List Record → List PreparedRecord → Service (List Record)
  unfolding normalize_record_owner_name
  validate_batch zone known [] = ok []
  validate_batch zone known (p ∷ ps) = do
    owner ← normalize_record_owner_name p.owner_name zone.name
    validate_add ip (filter (λ r. r.name == owner) known) owner p.record_type p.value
        (ttl_or p.ttl zone.ttl) p.priority none
    (let r = candidate zone owner p.record_type p.value (ttl_or p.ttl zone.ttl) p.priority in
        do rest ← validate_batch zone (known ++ r ∷ []) ps; ok (r ∷ rest))

  -- The body of the transaction; the diff that a dry run reports is left out.
  unfoldable pub bulk_in_tx :
      Caller → Str → Bool → List PreparedRecord → Db → Service (Written (List Record))
  unfolding get_by_name writes_of validate_batch
  bulk_in_tx caller zone_name dry_run ps db = do
    zone ← get_by_name db zone_name
    (let writes = writes_of zone.name ps in
        do
          authorize_record_writes db caller zone writes
          new_serial ← generate_serial (some zone.serial)
          to_insert ← validate_batch zone (records_named_in zone.id writes db) ps
          (if dry_run then ok (written to_insert db) else do
            after ←
                advance_serial (insert_records_with_changes db zone.id new_serial to_insert) zone
                  new_serial
            ok (written (with_ids db.next_id to_insert) after)))

module _ (ip : IpText) (b64 : Base64) (u : Uppercase) where
  abbrev pub prepare_item : RecordItem → Service PreparedRecord
  prepare_item item =
      prepare_record ip b64 u item.name item.record_type item.value item.ttl item.priority

  unfoldable pub create_bulk :
      Bool → Caller → Str → List RecordItem → Bool → Db → Service (List Record) × Db
  unfolding prepare_record bulk_in_tx finish_tx
  create_bulk commits caller zone_name items dry_run db =
      if is_empty items then (err invalid_input, db) else elim (map_result prepare_item items) [
        | err e ↦ (err e, db)
        | ok ps ↦ finish_tx commits db (bulk_in_tx ip caller zone_name dry_run ps db)
      ]
