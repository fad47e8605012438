-- ===== src/Examples/History.antt =====
-- The history of `example.com` across the update of Examples/Updates.antt.
use bindizr.Base.{true, nat_eq, pos, Bool-cases, inl, inr, filter, refl, arith}
use bindizr.Text.{codes}
use bindizr.Name.Owner.{owner_eq}
use bindizr.Name.Owner.Laws.{IsOwnerIn, parse_absolute_in_zone-IsOwnerIn}
use bindizr.Service.History.{of_record, has_key, records_at_serial, sort_records, insert_sorted}
use bindizr.Service.History.Undo.{SameRows, HasDistinctKeys}
use bindizr.Service.History.Journal.{IsSound}
use bindizr.Service.History.Refinement.{apply-records_at_serial}
use bindizr.Service.DynamicUpdate.Apply.{apply}
use bindizr.Examples.Names.{example_com-IsZoneName, www-parsed}
use bindizr.Examples.Records.{any_address, transparent, same_case}
use bindizr.Examples.Updates.{
  example_com, www, db, update, www_record, www-IsConsistent, db-HasKeys, found, changed,
}

pub www-IsOwnerIn : IsOwnerIn example_com.name www
www-IsOwnerIn =
    parse_absolute_in_zone-IsOwnerIn (codes "WWW.example.com.") example_com.name
      example_com-IsZoneName www-parsed

db-IsSound : IsSound any_address example_com db
db-IsSound = record {
  keys = db-HasKeys;
  consistent = www-IsConsistent;
  owners = (www-IsOwnerIn, tt);
}

www-HasDistinctKeys :
    HasDistinctKeys any_address (records_at_serial any_address same_case db (pos 7) (pos 5) (pos 5))
unfolding records_at_serial sort_records insert_sorted
www-HasDistinctKeys k = elim (Bool-cases (has_key any_address k (of_record www_record))) [
  | inl t ↦ rw (t, filter) (omega arith)
  | inr f ↦ rw (f, filter) (omega arith)
]

apply-records_at_serial_example :
    SameRows any_address
      (records_at_serial any_address same_case
        (apply any_address transparent true db update).1
        (pos 7)
        (pos 5)
        (pos 6))
      (records_at_serial any_address same_case db (pos 7) (pos 5) (pos 5))
apply-records_at_serial_example =
    apply-records_at_serial any_address transparent same_case true db update example_com (pos 5)
      example_com-IsZoneName db-IsSound tt found changed refl www-HasDistinctKeys
