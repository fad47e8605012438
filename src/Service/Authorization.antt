-- ===== src/Service/Authorization.antt =====
-- authorization/mod.rs: what a caller may see and write. The token lookup, which is a database read
-- and a clock, is left out.
pub mod Laws
use bindizr.Base.{
  Bool, true, false, ◌&&◌, List, [], ◌∷◌, Option, none, some, map, nat_eq, ◌==◌, if◌then◌else◌, any,
  is_empty, Result, ok, err, ◌>>=◌, ◌>>◌, fail_if, ℤ, int_eq,
}
use bindizr.Name.Owner.{OwnerName}
use bindizr.Record.Kind.{RecordType}
use bindizr.Record.Model.{Zone}
use bindizr.Service.Error.{ErrorCode, Service, forbidden, zone_not_found}
use bindizr.Service.Policy.{pattern_matches_name, types_match}
use bindizr.Service.Store.{ZonePolicy, Db, policies_of}

-- `Caller`; a token holds the grants that were read when the request came in.
pub data Caller : Type 0 where
  global : Caller
  token : (id : ℤ) (grants : List ZonePolicy) → Caller

pub record RecordWrite : Type 0 where
  pub relative_name : OwnerName
  pub record_type : Option RecordType

abbrev pub is_global : Caller → Bool
is_global global = true
is_global (token id grants) = false

unfoldable pub require_global : Caller → Service (Unit {0})
require_global caller = if is_global caller then ok tt else err forbidden

unfoldable pub visible_zone_ids : Caller → Option (List ℤ)
visible_zone_ids global = none
visible_zone_ids (token id grants) = some (map (λ p. p.zone_id) grants)

unfoldable pub zone_visible : Caller → ℤ → Bool
zone_visible global zone_id = true
zone_visible (token id grants) zone_id = any (λ p. p.zone_id == zone_id) grants

unfoldable pub ensure_zone_visible : Caller → Zone → Service (Unit {0})
unfolding zone_visible
ensure_zone_visible caller zone = if zone_visible caller zone.id then ok tt else err zone_not_found

-- A policy that covers a name and a type: the test of `authorize_with_policies`, and of
-- `authorize_update` in zone/tsig_policy/mod.rs.
abbrev pub grants_write : OwnerName → Option RecordType → ZonePolicy → Bool
grants_write name t p =
    pattern_matches_name p.record_name_pattern name && types_match p.record_types t

unfoldable pub authorize_with_policies : List ZonePolicy → List RecordWrite → Service (Unit {0})
authorize_with_policies policies [] = ok tt
authorize_with_policies policies (w ∷ ws) =
    if any (grants_write w.relative_name w.record_type) policies
    then authorize_with_policies policies ws
    else err forbidden

-- `authorize_record_writes_tx`: the policies are read again inside the transaction.
unfoldable pub authorize_record_writes : Db → Caller → Zone → List RecordWrite → Service (Unit {0})
unfolding authorize_with_policies
authorize_record_writes db global zone writes = ok tt
authorize_record_writes db (token id grants) zone writes =
    let policies = policies_of zone.id id db.token_policies in
    if is_empty policies then err forbidden else authorize_with_policies policies writes
