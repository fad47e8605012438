-- ===== src/Service/DynamicUpdate/Apply/Growth.antt =====
-- What a run of steps leaves of the journal and the snapshots.
use bindizr.Base.{
  ◌≤◌, ◌<◌, Bool, true, false, List, [], ◌∷◌, map, filter, is_empty, length, length-append, nat_eq,
  int_eq, Bool-cases, inl, inr, ◌≡◌, refl, ◌∙◌, ℤ, arith,
}
use bindizr.Record.Value.{IpText}
use bindizr.Record.Model.{Record, Zone}
use bindizr.Service.Store.{
  Db, ZoneChange, records_of, insert_records_with_changes, delete_records_with_changes, with_ids,
  op_del, change_of,
}
use bindizr.Service.DynamicUpdate.Apply.Steps.{
  Step, idle, inserted, deleted, Steps, done, then_step,
}

module _ (ip : IpText) (zone : Zone) (serial : ℤ) where
  Step-grows :
      (db db' : Db) (changed : Bool)
      → Step ip zone serial db db' changed
      → (length db.changes ≤ length db'.changes)
        × (changed ≡ true → length db.changes < length db'.changes)
  unfolding insert_records_with_changes delete_records_with_changes with_ids
  Step-grows _ _ _ (idle db) = (omega arith, λ e. cc)
  Step-grows _ _ _ (inserted db r z e o) =
      let more = λ (c : ZoneChange). length-append db.changes (c ∷ []) in
      (omega (arith, more _), λ _. omega (arith, more _))
  Step-grows _ _ _ (deleted db q some_left valid) =
      let taken = filter q (records_of zone.id db) in
      let cs = map (change_of zone.id serial op_del) taken in
      let some_change = map-some taken some_left in
      let more = length-append db.changes cs in
      rw some_left (omega (arith, more, some_change), λ _. omega (arith, more, some_change))
    where
      map-some :
          (rs : List Record)
          → is_empty rs ≡ false
          → 0 < length (map (change_of zone.id serial op_del) rs)
      map-some [] h = cc
      map-some (r ∷ rs) h = omega arith

  -- A run that changed the zone has left changes in the journal.
  pub Steps-grows :
      (db db' : Db) (changed : Bool)
      → Steps ip zone serial db db' changed
      → (length db.changes ≤ length db'.changes)
        × (changed ≡ true → length db.changes < length db'.changes)
  Steps-grows _ _ _ (done db) = (omega arith, λ e. cc)
  Steps-grows _ _ _ (then_step db mid last first rest step steps) =
      let (kept, more) = Step-grows db mid first step in
      let (kept', more') = Steps-grows mid last rest steps in
      (
        omega (arith, kept, kept'),
        λ e. elim (Bool-cases first) [
          | inl t ↦ omega (arith, more t, kept')
          | inr f ↦ omega (arith, kept, more' (rw f at e))
        ],
      )

pub Steps-snapshots :
    (ip : IpText) (zone : Zone) (serial : ℤ) (db db' : Db) (changed : Bool)
    → Steps ip zone serial db db' changed
    → db'.snapshots ≡ db.snapshots
unfolding insert_records_with_changes delete_records_with_changes
Steps-snapshots ip zone serial _ _ _ (done db) = refl
Steps-snapshots ip zone serial _ _ _ (then_step db mid last first rest (idle _) steps) =
    Steps-snapshots ip zone serial mid last rest steps
Steps-snapshots ip zone serial _ _ _ (then_step db mid last first rest (inserted _ r z k o) steps) =
    Steps-snapshots ip zone serial mid last rest steps
Steps-snapshots ip zone serial _ _ _ (then_step db mid last first rest (deleted _ q k l) steps) =
    Steps-snapshots ip zone serial mid last rest steps ∙ rw k refl
