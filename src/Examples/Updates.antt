-- ===== src/Examples/Updates.antt =====
-- An update of the zone `example.com`, and the records that it meets.
use bindizr.Base.{
  arith, Bool, true, false, [], ◌∷◌, none, some, Result, ok, err, sym, ◌∙◌, ◌≡◌, ◌≢◌, ◌↔◌, refl,
  pos, All, filter, ◌==◌,
}
use bindizr.Text.{Str, codes}
use bindizr.Text.{is_whitespace, is_ascii_alphanumeric, lower, len_utf8}
use bindizr.Text.Trim.{trim, trim_end_by, trim_start_by, strip_prefix, strip_suffix}
use bindizr.Text.Split.{split}
use bindizr.Text.Utf8.{from_utf8, encode_char}
use bindizr.Name.Label.{classify_domain_label, classify_owner_label, classify_wire_len}
use bindizr.Name.Decode.{decode_name_labels}
use bindizr.Name.Zone
use bindizr.Record.Encode.{encoded_value}
use bindizr.Record.Mailbox.{from_email}
use bindizr.Service.Serial.{generate_serial}
use bindizr.Service.Policy.{pattern_matches_name, types_match}
use bindizr.Name.Owner.{
  from_row, is_same_or_under, parse_absolute_in_zone, strip_zone_suffix, OwnerName, owner_eq,
}
use bindizr.Record.Kind.{a}
use bindizr.Record.Model.{Record, Zone, values_equal, canonical_value, validate_value}
use bindizr.Service.Validation.{new, validate_record_value, resolve_add, validate_add}
use bindizr.Service.Validation.Rules.{IsConsistent}
use bindizr.Service.Validation.Sound.{Fits, validate_add_iff}
use bindizr.Service.Validation.Invariant.{resolve_add-IsConsistent}
use bindizr.Service.Store.{
  with_serial, change_of, op_add, insert_records_with_changes, Db, ZonePolicy, records_of,
  policies_of,
}
use bindizr.Service.DynamicUpdate.{
  DynamicUpdate, DynamicUpdateError, internal, TsigKey, add, find_zone, authorize_key,
  owner_in_zone, evaluate_prerequisites,
}
use bindizr.Service.DynamicUpdate.Apply.{
  applied, snapshot_of, advance_serial, run, finish_tx, apply,
}
use bindizr.Service.DynamicUpdate.Apply.Isolation.{HasKeys}
use bindizr.Service.DynamicUpdate.Apply.Outcome.{Advanced, IsCovered}
use bindizr.Service.DynamicUpdate.Apply.Transaction.{
  apply-other, apply-unchanged, apply-changed, apply-IsConsistent, apply-authorized,
}
use bindizr.Examples.Records.{any_address, transparent}

abbrev pub example_com : Zone
example_com = record {
  id = pos 7;
  name = record { text = codes "example.com" };
  primary_ns = codes "ns1.example.com";
  admin_email = codes "admin@example.com";
  ttl = pos 3600;
  serial = pos 5;
  refresh = pos 3600;
  retry = pos 600;
  expire = pos 86400;
  minimum_ttl = pos 300;
}

abbrev pub www : OwnerName
www = record { labels = codes "www" ∷ [] }

abbrev pub www_record : Record
www_record = record {
  id = pos 1;
  name = www;
  record_type = a;
  value = codes "192.0.2.1";
  ttl = pos 300;
  priority = none;
  zone_id = pos 7;
}

abbrev pub second_record : Record
second_record = record {
  id = pos 2;
  name = www;
  record_type = a;
  value = codes "192.0.2.2";
  ttl = pos 300;
  priority = none;
  zone_id = pos 7;
}

-- A key that may write below `www`.
abbrev pub www_grant : ZonePolicy
www_grant = record {
  zone_id = pos 7;
  holder_id = pos 3;
  record_name_pattern = codes "*.www";
  record_types = codes "*";
}

abbrev pub db : Db
db = record {
  zones = example_com ∷ [];
  records = www_record ∷ [];
  changes = [];
  snapshots = [];
  tsig_policies = www_grant ∷ [];
  token_policies = [];
  next_id = 2;
}

abbrev pub scoped_key : TsigKey
scoped_key = record { id = pos 3; is_global = false }

abbrev pub update : DynamicUpdate
update = record {
  zone_name = codes "example.com.";
  key = some scoped_key;
  prerequisites = [];
  updates = add (codes "www.example.com.") a (codes "192.0.2.2") (pos 300) none ∷ [];
}

pub found : find_zone db (codes "example.com.") ≡ ok example_com
unfolding find_zone bindizr.Text.Trim.trim bindizr.Text.Trim.trim_end_by
    bindizr.Text.Trim.trim_start_by bindizr.Text.is_whitespace bindizr.Text.Trim.strip_prefix
    bindizr.Name.Zone.parse bindizr.Text.Trim.strip_suffix bindizr.Text.len_utf8
    bindizr.Text.Split.split bindizr.Name.Label.classify_domain_label
    bindizr.Text.is_ascii_alphanumeric bindizr.Text.lower
found = refl

-- The zone behind the update: the row, its change, the next serial and its snapshot.
abbrev pub updated : Db
updated = record {
  zones = with_serial (pos 6) example_com ∷ [];
  records = www_record ∷ second_record ∷ [];
  changes = change_of (pos 7) (pos 6) op_add second_record ∷ [];
  snapshots = snapshot_of example_com (pos 6) (codes "admin.example.com.") ∷ [];
  tsig_policies = www_grant ∷ [];
  token_policies = [];
  next_id = 3;
}

ran : run any_address transparent db update ≡ ok (applied true updated)
unfolding run find_zone trim trim_end_by trim_start_by is_whitespace strip_prefix Zone.parse
    strip_suffix len_utf8 split classify_domain_label is_ascii_alphanumeric lower authorize_key
    owner_in_zone parse_absolute_in_zone decode_name_labels from_utf8 encode_char
    classify_owner_label classify_wire_len strip_zone_suffix Zone.labels pattern_matches_name
    is_same_or_under from_row types_match evaluate_prerequisites generate_serial encoded_value
    resolve_add values_equal canonical_value validate_record_value validate_value
    insert_records_with_changes advance_serial from_email
ran = refl

pub changed : (apply any_address transparent true db update).0 ≡ ok true
unfolding apply finish_tx
changed = rw ran refl

-- The commit is refused.
refused_commit : (apply any_address transparent false db update).0 ≡ err internal
unfolding apply finish_tx
refused_commit = rw ran refl

err-ne-ok :
    (e : DynamicUpdateError) (b : Bool) → ◌≢◌ {A = Result DynamicUpdateError Bool} (err e) (ok b)
err-ne-ok e b h = cc

not_committed : (apply any_address transparent false db update).0 ≢ ok true
not_committed e = err-ne-ok internal true (sym refused_commit ∙ e)

pub www-IsConsistent : IsConsistent any_address (records_of (pos 7) db)
unfolding bindizr.Record.Model.validate_value
www-IsConsistent = (
  record { not_soa = λ e. cc; valid = refl; cname_below_apex = λ e. cc; ns_at_apex = λ e. cc },
  tt,
  tt,
)

pub second-new :
    resolve_add any_address
      (filter (λ s. s.name == www) (www_record ∷ []))
      www
      a
      (codes "192.0.2.2")
      (pos 300)
      none
    ≡ ok new
unfolding resolve_add bindizr.Record.Model.values_equal bindizr.Record.Model.canonical_value
    bindizr.Service.Validation.validate_record_value bindizr.Record.Model.validate_value
second-new = refl

apply-unchanged_example : (apply any_address transparent false db update).1 ≡ db
apply-unchanged_example = apply-unchanged any_address transparent false db update not_committed

apply-changed_example :
    Advanced (codes "example.com.") example_com (apply any_address transparent true db update).1
apply-changed_example =
    apply-changed any_address transparent true db update example_com found changed

apply-IsConsistent_example :
    IsConsistent any_address (records_of (pos 7) (apply any_address transparent true db update).1)
apply-IsConsistent_example =
    apply-IsConsistent any_address transparent true db update example_com found www-IsConsistent

apply-authorized_example :
    All (IsCovered (policies_of (pos 7) (pos 3) (www_grant ∷ [])) example_com.name) update.updates
apply-authorized_example =
    apply-authorized any_address transparent true db update example_com scoped_key true found refl
      refl changed

validate_add_iff_example :
    (validate_add any_address (www_record ∷ []) www a (codes "192.0.2.2") (pos 300) none none
      ≡ ok tt)
    ↔ Fits any_address (www_record ∷ []) second_record none
validate_add_iff_example = validate_add_iff any_address (www_record ∷ []) second_record none

resolve_add-IsConsistent_example : IsConsistent any_address (www_record ∷ second_record ∷ [])
resolve_add-IsConsistent_example =
    resolve_add-IsConsistent any_address (www_record ∷ []) second_record www-IsConsistent second-new

pub db-HasKeys : HasKeys db
db-HasKeys = record { unique = ((λ e. refl, tt), tt); given = ((1, refl, omega arith), tt) }

apply-other_example :
    HasKeys (apply any_address transparent true db update).1
    × (records_of (pos 8) (apply any_address transparent true db update).1 ≡ [])
apply-other_example =
    apply-other any_address transparent true db update example_com (pos 8) db-HasKeys found
      (λ e. cc)
