-- ===== src/Examples/Writes.antt =====
-- Writes of the record service to the zone `example.com`.
use bindizr.Base.{
  true, false, [], ◌∷◌, List, length, none, some, ok, err, pos, ◌≡◌, refl, ap, ◌∙◌, subst, ◌⊎◌,
}
use bindizr.Text.{Str, codes}
use bindizr.Text.{is_whitespace, is_ascii_alphanumeric, lower, len_utf8}
use bindizr.Text.Trim.{trim, trim_end_by, trim_start_by, strip_prefix, strip_suffix}
use bindizr.Text.Split.{split}
use bindizr.Text.Utf8.{from_utf8, encode_char}
use bindizr.Name.Label.{classify_domain_label, classify_owner_label, classify_wire_len}
use bindizr.Name.Decode.{decode_name_labels}
use bindizr.Name.Zone
use bindizr.Name.Owner.{owner_eq, parse_in_zone, strip_zone_suffix}
use bindizr.Record.Encode.{encoded_value}
use bindizr.Record.Mailbox.{from_email}
use bindizr.Record.Kind.{from_str, of_upper}
use bindizr.Record.Model.{validate_value, values_equal, canonical_value, is_primary_ns}
use bindizr.Service.Serial.{generate_serial}
use bindizr.Service.Validation.{
  validate_add, validate_record_value, has_matching_rdata, null_mx_conflict,
  validate_delete_constraints,
}
use bindizr.Service.Authorization.{authorize_record_writes}
use bindizr.Service.Store.{insert_records_with_changes, delete_records_with_changes}
use bindizr.Service.DynamicUpdate.{normalize_zone_name}
use bindizr.Service.DynamicUpdate.Apply.{advance_serial}
use bindizr.Record.Model.{Record}
use bindizr.Service.Error.{ErrorCode, Service, record_not_found}
use bindizr.Service.Validation.Rules.{IsConsistent}
use bindizr.Service.Authorization.{Caller, global, token, zone_visible}
use bindizr.Service.Store.{Db, records_of}
use bindizr.Service.Writes.{
  CreateRecordRequest, string, record_with_id, zone_with_id, get_by_name, create, delete_by_id,
}
use bindizr.Service.Writes.Update.{RecordItem, Resolve, resolve_item, update_locked}
use bindizr.Service.Writes.Bulk.{create_bulk}
use bindizr.Service.Writes.Outcome.{
  create-IsConsistent, create_bulk-IsConsistent, update_locked-IsConsistent, locked_writes-hidden,
}
use bindizr.Service.Writes.Effect.{Landed, create_bulk-all_or_none}
use bindizr.Service.Writes.RoundTrip.{delete_by_id-create}
use bindizr.Name.Owner.{from_row, is_same_or_under}
use bindizr.Service.Policy.{pattern_matches_name, types_match}
use bindizr.Service.Validation.{validate_update}
use bindizr.Record.Kind.{a}
use bindizr.Service.Store.{ZonePolicy}
use bindizr.Service.Writes.Granted.{MayUpdate, update_locked-MayUpdate}
use bindizr.Examples.Records.{any_address, transparent, same_case}
use bindizr.Examples.Updates.{
  www, example_com, db, updated, www_record, second_record, www-IsConsistent, db-HasKeys,
}

abbrev request : CreateRecordRequest
request = record {
  name = codes "www";
  record_type = codes "A";
  value = string (codes "192.0.2.2");
  ttl = some (pos 300);
  priority = none;
  zone_name = codes "example.com";
}

abbrev item : RecordItem
item = record {
  name = codes "mail";
  record_type = codes "A";
  value = string (codes "192.0.2.9");
  ttl = none;
  priority = none;
}

named : get_by_name db (codes "example.com") ≡ ok example_com
unfolding get_by_name bindizr.Service.DynamicUpdate.normalize_zone_name bindizr.Text.Trim.trim
    bindizr.Text.Trim.trim_end_by bindizr.Text.Trim.trim_start_by bindizr.Text.is_whitespace
    bindizr.Text.Trim.strip_prefix bindizr.Name.Zone.parse bindizr.Text.Trim.strip_suffix
    bindizr.Text.len_utf8 bindizr.Text.Split.split bindizr.Name.Label.classify_domain_label
    bindizr.Text.is_ascii_alphanumeric bindizr.Text.lower
named = refl

create-IsConsistent_example :
    IsConsistent any_address
      (records_of (pos 7) (create any_address transparent same_case true global request db).1)
create-IsConsistent_example =
    create-IsConsistent any_address transparent same_case true global request db example_com named
      www-IsConsistent

create_bulk-IsConsistent_example : IsConsistent any_address (
    records_of
      (pos 7)
      (create_bulk any_address transparent same_case true global
        (codes "example.com")
        (item ∷ [])
        false
        db).1)
create_bulk-IsConsistent_example =
    create_bulk-IsConsistent any_address transparent same_case true global (codes "example.com")
      (item ∷ []) false db example_com named www-IsConsistent

abbrev renamed : Resolve
renamed = resolve_item any_address transparent same_case item

update_locked-IsConsistent_example :
    IsConsistent any_address
      (records_of (pos 7) (update_locked any_address true global renamed (pos 1) db db).1)
update_locked-IsConsistent_example =
    update_locked-IsConsistent any_address true global renamed (pos 1) db db www_record example_com
      refl refl db-HasKeys www-IsConsistent

-- A token with no grant.
abbrev stranger : Caller
stranger = token (pos 9) []

zone_there :
    (r : Record)
    → record_with_id (pos 1) db.records ≡ some r
    → zone_with_id r.zone_id db.zones ≡ some example_com
zone_there r e =
    let same : www_record ≡ r = cc in
    subst (λ (x : Record). zone_with_id x.zone_id db.zones ≡ some example_com) same refl

unseen : zone_visible stranger (pos 7) ≡ false
unfolding zone_visible
unseen = refl

locked_writes-hidden_example :
    (delete_by_id true stranger (pos 1) db db ≡ (err record_not_found, db))
    × (update_locked any_address true stranger renamed (pos 1) db db ≡ (err record_not_found, db))
locked_writes-hidden_example =
    locked_writes-hidden any_address true stranger renamed (pos 1) db db example_com zone_there
      unseen

create_bulk-all_or_none_example :
    ((e : ErrorCode) × (create_bulk any_address transparent same_case true global
          (codes "example.com")
          (item ∷ [])
          false
          db
        ≡ (err e, db)))
    ⊎ ((rows : List Record) × (after : Db) × (create_bulk any_address transparent same_case true
            global
            (codes "example.com")
            (item ∷ [])
            false
            db
          ≡ (ok rows, after))
        × (length rows ≡ 1)
        × Landed false db rows after)
create_bulk-all_or_none_example =
    create_bulk-all_or_none any_address transparent same_case true global (codes "example.com")
      (item ∷ []) false db

created :
    create any_address transparent same_case true global request db ≡ (ok second_record, updated)
unfolding create from_str of_upper encoded_value normalize_zone_name trim trim_end_by trim_start_by
    is_whitespace strip_prefix Zone.parse strip_suffix len_utf8 split classify_domain_label
    is_ascii_alphanumeric lower parse_in_zone decode_name_labels from_utf8 encode_char
    classify_owner_label classify_wire_len strip_zone_suffix Zone.labels authorize_record_writes
    validate_add validate_record_value validate_value values_equal canonical_value
    has_matching_rdata null_mx_conflict generate_serial insert_records_with_changes advance_serial
    from_email
created = refl

taken : (delete_by_id true global (pos 2) updated updated).0 ≡ ok tt
unfolding delete_by_id zone_visible authorize_record_writes generate_serial
    validate_delete_constraints is_primary_ns delete_records_with_changes advance_serial from_email
    trim trim_end_by trim_start_by is_whitespace strip_prefix strip_suffix len_utf8 split
    classify_domain_label is_ascii_alphanumeric lower
taken = refl

-- The tables behind the creation.
abbrev created_db : Db
created_db = (create any_address transparent same_case true global request db).1

made : (create any_address transparent same_case true global request db).0 ≡ ok second_record
made = ap (λ (o : Service Record × Db). o.0) created

deleted : (delete_by_id true global (pos 2) updated created_db).0 ≡ ok tt
deleted =
    ap (λ (o : Service Record × Db). (delete_by_id true global (pos 2) updated o.1).0) created
    ∙ taken

delete_by_id-create_example :
    (delete_by_id true global (pos 2) updated created_db).1.records ≡ www_record ∷ []
delete_by_id-create_example =
    delete_by_id-create any_address transparent same_case true global global request db updated
      second_record db-HasKeys made deleted

-- A token that may write `www` and below.
abbrev www_token : ZonePolicy
www_token = record {
  zone_id = pos 7;
  holder_id = pos 4;
  record_name_pattern = codes "*.www";
  record_types = codes "*";
}

abbrev granted_db : Db
granted_db = record {
  zones = db.zones;
  records = db.records;
  changes = [];
  snapshots = [];
  tsig_policies = [];
  token_policies = www_token ∷ [];
  next_id = 2;
}

-- A new address for the record.
abbrev readdress : Resolve
readdress zone existing = ok (record {
  owner_name = existing.name;
  record_type = a;
  encoded_value = codes "192.0.2.2";
  ttl = pos 300;
  priority = none;
})

abbrev readdressed : Record
readdressed = record {
  id = pos 1;
  name = www;
  record_type = a;
  value = codes "192.0.2.2";
  ttl = pos 300;
  priority = none;
  zone_id = pos 7;
}

allowed :
    (update_locked any_address true
      (token (pos 4) (www_token ∷ []))
      readdress
      (pos 1)
      granted_db
      granted_db).0
    ≡ ok readdressed
unfolding update_locked zone_visible authorize_record_writes pattern_matches_name types_match
    is_same_or_under from_row validate_update validate_add validate_record_value validate_value
    values_equal canonical_value has_matching_rdata null_mx_conflict is_primary_ns generate_serial
    advance_serial from_email trim trim_end_by trim_start_by is_whitespace strip_prefix strip_suffix
    len_utf8 split classify_domain_label is_ascii_alphanumeric lower decode_name_labels from_utf8
    encode_char classify_owner_label classify_wire_len
allowed = refl

update_locked-MayUpdate_example : MayUpdate (pos 4) granted_db (pos 1) readdressed
update_locked-MayUpdate_example =
    update_locked-MayUpdate any_address (pos 4) (www_token ∷ []) readdress (pos 1) granted_db true
      granted_db readdressed allowed
