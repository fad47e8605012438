-- ===== src/Examples/Policies.antt =====
-- Patterns, grants, codes and serials.
use bindizr.Base.{
  ℕ, ◌+◌, true, List, [], ◌∷◌, ◌++◌, some, ok, err, ◌≡◌, ◌≢◌, ◌↔◌, refl, arith, pos, All,
}
use bindizr.Text.{Str, codes}
use bindizr.Name.Label.{join_labels}
use bindizr.Name.Owner.{OwnerName}
use bindizr.Record.Kind.{a}
use bindizr.Record.Model.{Zone}
use bindizr.Service.Error.{parse, as_str, parse-as_str, forbidden, invalid_input}
use bindizr.Service.Serial.{validate_initial_serial, advance, advance-validate_initial_serial}
use bindizr.Service.Policy.{
  pattern_matches_name, wildcard_prefix, parse_relative_name, normalize_pattern,
}
use bindizr.Service.Policy.Normal.{normalize_pattern-join_labels}
use bindizr.Service.Policy.Laws.{
  IsPattern, parse_relative_name-IsPattern, exact_pattern, wildcard_pattern,
}
use bindizr.Service.Store.{Db, ZonePolicy, policies_of}
use bindizr.Service.Authorization.{token, RecordWrite, authorize_record_writes}
use bindizr.Service.Authorization.Laws.{IsGranted, authorize_record_writes_iff}

abbrev dyn : List Str
dyn = codes "dyn" ∷ []

abbrev host : OwnerName
host = record { labels = codes "host" ∷ codes "dyn" ∷ [] }

dyn-parsed : parse_relative_name (codes "DYN") ≡ ok dyn
unfolding parse_relative_name bindizr.Name.Decode.decode_name_labels bindizr.Text.Utf8.from_utf8
    bindizr.Text.Utf8.encode_char bindizr.Name.Label.classify_owner_label bindizr.Text.len_utf8
    bindizr.Text.lower bindizr.Text.is_whitespace bindizr.Name.Label.classify_wire_len
dyn-parsed = refl

dyn-IsPattern : IsPattern dyn
dyn-IsPattern = parse_relative_name-IsPattern (codes "DYN") dyn-parsed

spelled : normalize_pattern (some (codes " *.DYN ")) ≡ ok (codes "*.dyn")
unfolding normalize_pattern bindizr.Text.Trim.trim bindizr.Text.Trim.trim_start_by
    bindizr.Text.Trim.trim_end_by bindizr.Text.Trim.strip_prefix
    bindizr.Name.Decode.decode_name_labels bindizr.Text.Utf8.from_utf8 bindizr.Text.Utf8.encode_char
    bindizr.Name.Label.classify_owner_label bindizr.Text.len_utf8 bindizr.Text.lower
    bindizr.Text.is_whitespace bindizr.Name.Label.classify_wire_len bindizr.Name.Label.join_labels
    bindizr.Text.Split.join bindizr.Name.Label.escape_label bindizr.Name.Label.escaped_in_label
spelled = refl

normalize_pattern-join_labels_example :
    (normalize_pattern (some (join_labels dyn)) ≡ ok (join_labels dyn))
    × (normalize_pattern (some (wildcard_prefix ++ join_labels dyn))
        ≡ ok (wildcard_prefix ++ join_labels dyn))
    × (normalize_pattern (some (join_labels dyn ++ codes ".")) ≡ err invalid_input)
    × (normalize_pattern (some (wildcard_prefix ++ (join_labels dyn ++ codes ".")))
        ≡ err invalid_input)
normalize_pattern-join_labels_example = normalize_pattern-join_labels dyn dyn-IsPattern

exact_pattern_example : (pattern_matches_name (join_labels dyn) host ≡ true) ↔ (host.labels ≡ dyn)
exact_pattern_example = exact_pattern dyn host dyn-IsPattern

wildcard_pattern_example :
    (pattern_matches_name (wildcard_prefix ++ join_labels dyn) host ≡ true)
    ↔ ((front : List Str) × (host.labels ≡ front ++ dyn))
wildcard_pattern_example = wildcard_pattern dyn host dyn-IsPattern

parse-as_str_example : parse (as_str forbidden) ≡ some forbidden
parse-as_str_example = parse-as_str forbidden

accepted : validate_initial_serial (pos 2024010100) ≡ ok (pos 2024010100)
unfolding validate_initial_serial
accepted = refl

advance-validate_initial_serial_example :
    (k : ℕ) × (pos 2024010100 ≡ pos k) × (advance 3 (pos 2024010100) ≡ ok (pos (k + 3)))
advance-validate_initial_serial_example =
    advance-validate_initial_serial (pos 2024010100) (pos 2024010100) 3 accepted (omega arith)

abbrev example_zone : Zone
example_zone = record {
  id = pos 7;
  name = record { text = codes "example.com" };
  primary_ns = codes "ns1.example.com";
  admin_email = codes "admin@example.com";
  ttl = pos 3600;
  serial = pos 5;
  refresh = pos 3600;
  retry = pos 600;
  expire = pos 86400;
  minimum_ttl = pos 300;
}

abbrev dyn_grant : ZonePolicy
dyn_grant = record {
  zone_id = pos 7;
  holder_id = pos 3;
  record_name_pattern = codes "*.dyn";
  record_types = codes "A,AAAA";
}

abbrev granting_db : Db
granting_db = record {
  zones = example_zone ∷ [];
  records = [];
  changes = [];
  snapshots = [];
  tsig_policies = [];
  token_policies = dyn_grant ∷ [];
  next_id = 1;
}

abbrev host_write : RecordWrite
host_write = record { relative_name = host; record_type = some a }

authorize_record_writes_iff_example :
    (authorize_record_writes granting_db (token (pos 3) []) example_zone (host_write ∷ []) ≡ ok tt
      → (policies_of (pos 7) (pos 3) (dyn_grant ∷ []) ≢ [])
        × All (IsGranted (policies_of (pos 7) (pos 3) (dyn_grant ∷ []))) (host_write ∷ []))
    × ((policies_of (pos 7) (pos 3) (dyn_grant ∷ []) ≢ [])
          × All (IsGranted (policies_of (pos 7) (pos 3) (dyn_grant ∷ []))) (host_write ∷ [])
        → authorize_record_writes granting_db (token (pos 3) []) example_zone (host_write ∷ [])
          ≡ ok tt)
authorize_record_writes_iff_example =
    authorize_record_writes_iff granting_db (pos 3) [] example_zone (host_write ∷ [])

host-granted :
    authorize_record_writes granting_db (token (pos 3) []) example_zone (host_write ∷ []) ≡ ok tt
unfolding authorize_record_writes pattern_matches_name bindizr.Text.Trim.strip_prefix
    bindizr.Name.Owner.is_same_or_under bindizr.Name.Owner.from_row
    bindizr.Name.Decode.decode_name_labels bindizr.Text.Utf8.from_utf8 bindizr.Text.Utf8.encode_char
    bindizr.Name.Label.classify_owner_label bindizr.Text.len_utf8 bindizr.Text.lower
    bindizr.Text.is_whitespace bindizr.Name.Label.classify_wire_len
    bindizr.Service.Policy.types_match bindizr.Text.Split.split bindizr.Record.Kind.as_str
host-granted = refl
