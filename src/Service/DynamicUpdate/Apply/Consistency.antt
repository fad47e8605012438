-- ===== src/Service/DynamicUpdate/Apply/Consistency.antt =====
-- The rules that a zone's records keep, over the steps of an update.
use bindizr.Base.{
  Bool, true, false, not, List, [], ◌∷◌, ◌++◌, nat_eq, filter, filter-append, filter-filter,
  is_empty, ◌≡◌, refl, sym, subst, ◌∙◌, ℤ, int_eq, pos,
}
use bindizr.Name.Owner.{owner_eq}
use bindizr.Record.Value.{IpText}
use bindizr.Record.Model.{Record, Zone}
use bindizr.Service.Validation.Rules.{IsConsistent}
use bindizr.Service.Validation.Invariant.{filter-IsConsistent, resolve_add-IsConsistent}
use bindizr.Service.Store.{
  Db, in_zone, records_of, has_id, with_id, with_ids, insert_records_with_changes,
  delete_records_with_changes,
}
use bindizr.Service.DynamicUpdate.Apply.Steps.{
  Step, idle, inserted, deleted, Steps, done, then_step,
}

-- The rows of a zone behind an insert.
pub records_of-insert :
    (db : Db) (zone : Zone) (serial : ℤ) (r : Record)
    → r.zone_id ≡ zone.id
    → records_of zone.id (insert_records_with_changes db zone.id serial (r ∷ []))
      ≡ records_of zone.id db ++ with_id (pos db.next_id) r ∷ []
unfolding insert_records_with_changes with_ids
records_of-insert db zone serial r z =
    let row = with_id (pos db.next_id) r in
    let here : in_zone zone.id row ≡ true = (int_eq.decides r.zone_id zone.id).1 z in
    filter-append (in_zone zone.id) db.records (row ∷ []) ∙ rw (here, filter) refl

-- The rows of any zone behind a deletion.
pub records_of-delete :
    (db : Db) (id serial of_zone : ℤ) (rs : List Record)
    → is_empty rs ≡ false
    → records_of of_zone (delete_records_with_changes db id serial rs)
      ≡ filter (λ r. not (has_id rs r)) (records_of of_zone db)
unfolding delete_records_with_changes
records_of-delete db id serial of_zone rs some_left =
    rw some_left (filter-filter (in_zone of_zone) (λ r. not (has_id rs r)) db.records)

module _ (ip : IpText) (zone : Zone) (serial : ℤ) where
  pub Step-IsConsistent :
      (db db' : Db) (changed : Bool)
      → Step ip zone serial db db' changed
      → IsConsistent ip (records_of zone.id db)
      → IsConsistent ip (records_of zone.id db')
  Step-IsConsistent _ _ _ (idle db) h = h
  Step-IsConsistent _ _ _ (inserted db r z e o) h =
      subst (IsConsistent ip) (sym (records_of-insert db zone serial r z))
        (resolve_add-IsConsistent ip (records_of zone.id db) (with_id (pos db.next_id) r) h e)
  Step-IsConsistent _ _ _ (deleted db q some_left valid) h =
      let rs = filter q (records_of zone.id db) in
      subst (IsConsistent ip) (sym (records_of-delete db zone.id serial zone.id rs some_left))
        (filter-IsConsistent ip (λ r. not (has_id rs r)) (records_of zone.id db) h)

  -- A run of steps keeps a consistent zone consistent.
  pub Steps-IsConsistent :
      (db db' : Db) (changed : Bool)
      → Steps ip zone serial db db' changed
      → IsConsistent ip (records_of zone.id db)
      → IsConsistent ip (records_of zone.id db')
  Steps-IsConsistent _ _ _ (done db) h = h
  Steps-IsConsistent _ _ _ (then_step db mid last first rest step steps) h =
      Steps-IsConsistent mid last rest steps (Step-IsConsistent db mid first step h)

  -- A run that changed nothing leaves the database as it was.
  pub Steps-unchanged :
      (db db' : Db) (changed : Bool)
      → Steps ip zone serial db db' changed
      → changed ≡ false
      → db' ≡ db
  Steps-unchanged _ _ _ (done db) e = refl
  Steps-unchanged _ _ _ (then_step db mid last first rest (idle db') steps) e =
      Steps-unchanged mid last rest steps e
  Steps-unchanged _ _ _ (then_step db mid last first rest (inserted _ r z k o) steps) e = cc
  Steps-unchanged _ _ _ (then_step db mid last first rest (deleted _ q k l) steps) e = cc
