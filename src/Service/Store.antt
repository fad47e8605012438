-- ===== src/Service/Store.antt =====
-- The tables that the service reads and writes, with the statements of the sqlite repositories of
-- bindizr-db. A failing database is not modelled but for a refused commit.
use bindizr.Base.{
  ℕ, suc, Bool, not, ◌&&◌, List, [], ◌∷◌, ◌++◌, map, Option, none, some, nat_eq, ◌==◌, list_eq,
  if◌then◌else◌, any, filter, is_empty, ℤ, pos, int_eq,
}
use bindizr.Text.{Str, codes}
use bindizr.Name.Owner.{OwnerName, owner_eq}
use bindizr.Record.Kind.{as_str}
use bindizr.Record.Model.{Record, Zone}

pub record ZoneChange : Type 0 where
  pub zone_id : ℤ
  pub serial : ℤ
  pub operation : Str
  pub record_name : OwnerName
  pub record_type : Str
  pub record_value : Str
  pub record_ttl : ℤ
  pub record_priority : Option ℤ

abbrev pub op_add : Str
op_add = codes "ADD"

abbrev pub op_del : Str
op_del = codes "DEL"

-- The row id and the creation time, which nothing reads, are left out.
pub record ZoneSnapshot : Type 0 where
  pub zone_id : ℤ
  pub serial : ℤ
  pub primary_ns : Str
  pub admin_email : Str
  pub ttl : ℤ
  pub refresh : ℤ
  pub retry : ℤ
  pub expire : ℤ
  pub minimum_ttl : ℤ

-- A grant over part of a zone, held by a TSIG key or by an API token.
pub record ZonePolicy : Type 0 where
  pub zone_id : ℤ
  pub holder_id : ℤ
  pub record_name_pattern : Str
  pub record_types : Str

-- `next_id` is the row id that the records table gives out next.
pub record Db : Type 0 where
  pub zones : List Zone
  pub records : List Record
  pub changes : List ZoneChange
  pub snapshots : List ZoneSnapshot
  pub tsig_policies : List ZonePolicy
  pub token_policies : List ZonePolicy
  pub next_id : ℕ

-- `get_by_name_tx`
abbrev pub first_named : Str → List Zone → Option Zone
first_named name [] = none
first_named name (z ∷ zs) = if z.name.text == name then some z else first_named name zs

abbrev pub in_zone : ℤ → Record → Bool
in_zone id r = r.zone_id == id

-- `list_by_zone_id_tx`. SQL leaves the order of one name's rows open; here it is the table's.
abbrev pub records_of : ℤ → Db → List Record
records_of id db = filter (in_zone id) db.records

-- `list_by_zone_id_and_name_tx`
abbrev pub records_named : ℤ → OwnerName → Db → List Record
records_named id name db = filter (λ r. r.name == name) (records_of id db)

-- `list_by_zone_and_key_tx` and `list_by_zone_and_token_tx`
abbrev pub policies_of : ℤ → ℤ → List ZonePolicy → List ZonePolicy
policies_of zone_id holder_id ps = filter (λ p. p.zone_id == zone_id && p.holder_id == holder_id) ps

abbrev pub change_of : ℤ → ℤ → Str → Record → ZoneChange
change_of zone_id serial operation r = record {
  zone_id = zone_id;
  serial = serial;
  operation = operation;
  record_name = r.name;
  record_type = as_str r.record_type;
  record_value = r.value;
  record_ttl = r.ttl;
  record_priority = r.priority;
}

-- `zone_changes_for`
abbrev pub zone_changes_for : ℤ → ℤ → Str → List Record → List ZoneChange
zone_changes_for zone_id serial operation rs = map (change_of zone_id serial operation) rs

abbrev pub with_id : ℤ → Record → Record
with_id id r = record {
  id = id;
  name = r.name;
  record_type = r.record_type;
  value = r.value;
  ttl = r.ttl;
  priority = r.priority;
  zone_id = r.zone_id;
}

-- `create_many_tx`: the rows with the ids that they get.
unfoldable pub with_ids : ℕ → List Record → List Record
with_ids next [] = []
with_ids next (r ∷ rs) = with_id (pos next) r ∷ with_ids (suc next) rs

unfoldable pub ids_after : ℕ → List Record → ℕ
ids_after next [] = next
ids_after next (r ∷ rs) = ids_after (suc next) rs

-- A table's new contents.
abbrev pub set_tables : Db → List Record → List ZoneChange → ℕ → Db
set_tables db rs cs next = record {
  zones = db.zones;
  records = rs;
  changes = cs;
  snapshots = db.snapshots;
  tsig_policies = db.tsig_policies;
  token_policies = db.token_policies;
  next_id = next;
}

-- `insert_records_with_changes_tx`
unfoldable pub insert_records_with_changes : Db → ℤ → ℤ → List Record → Db
unfolding with_ids ids_after
insert_records_with_changes db zone_id serial rs =
    let created = with_ids db.next_id rs in
    if is_empty rs
    then db
    else set_tables db (db.records ++ created)
        (db.changes ++ zone_changes_for zone_id serial op_add created) (ids_after db.next_id rs)

abbrev pub has_id : List Record → Record → Bool
has_id deleting r = any (λ d. d.id == r.id) deleting

-- `delete_records_with_changes_tx`
unfoldable pub delete_records_with_changes : Db → ℤ → ℤ → List Record → Db
delete_records_with_changes db zone_id serial rs =
    if is_empty rs
    then db
    else set_tables db (filter (λ r. not (has_id rs r)) db.records)
        (db.changes ++ zone_changes_for zone_id serial op_del rs) db.next_id

abbrev pub with_serial : ℤ → Zone → Zone
with_serial serial z = record {
  id = z.id;
  name = z.name;
  primary_ns = z.primary_ns;
  admin_email = z.admin_email;
  ttl = z.ttl;
  serial = serial;
  refresh = z.refresh;
  retry = z.retry;
  expire = z.expire;
  minimum_ttl = z.minimum_ttl;
}

-- `update_serial_tx`
abbrev pub set_serial : ℤ → ℤ → List Zone → List Zone
set_serial id serial zs = map (λ z. if z.id == id then with_serial serial z else z) zs

-- `upsert_tx`: the snapshot replaces one of its zone and serial.
unfoldable pub upsert_snapshot : ZoneSnapshot → List ZoneSnapshot → List ZoneSnapshot
upsert_snapshot s [] = s ∷ []
upsert_snapshot s (t ∷ ts) =
    let rest = upsert_snapshot s ts in
    if t.zone_id == s.zone_id && t.serial == s.serial then s ∷ ts else t ∷ rest

-- `get_by_zone_id_and_serial` of the snapshots
unfoldable pub snapshot_at : ℤ → ℤ → List ZoneSnapshot → Option ZoneSnapshot
snapshot_at zone_id serial [] = none
snapshot_at zone_id serial (t ∷ ts) =
    let rest = snapshot_at zone_id serial ts in
    if t.zone_id == zone_id && t.serial == serial then some t else rest
