-- ===== src/Service/History/Journal.antt =====
-- The change journal: what a step of an update appends to it, undone, gives back the rows before.
use bindizr.Base.{
  Bool, true, false, not, List, [], ◌∷◌, ◌++◌, map, append-nil, append_assoc, nat_eq, list_eq,
  filter, filter-append, filter-backwards, backwards, is_empty, All, All-append, All-imp,
  All-filter, any, any-false, fail_if-eq-ok, none, ok, ◌≡◌, ◌≢◌, refl, sym, ap, subst, ◌∙◌, ℤ, pos,
  int_eq, ne_of_beq,
}
use bindizr.Text.{Str}
use bindizr.Name.Owner.{owner_eq}
use bindizr.Name.Zone.Laws.{IsZoneName}
use bindizr.Name.Owner.Laws.{IsOwnerIn}
use bindizr.Record.Kind.{soa, type_eq, Uppercase}
use bindizr.Record.Value.{IpText}
use bindizr.Record.Model.{Record, Zone}
use bindizr.Service.Validation.{is_type, validate_delete_constraints}
use bindizr.Service.Validation.Rules.{IsConsistent}
use bindizr.Service.Validation.Sound.{validate_add_sound}
use bindizr.Service.Validation.Invariant.{resolve_add-new}
use bindizr.Service.Store.{
  Db, ZoneChange, in_zone, records_of, has_id, with_id, with_ids, change_of, op_add, op_del,
  insert_records_with_changes, delete_records_with_changes,
}
use bindizr.Service.DynamicUpdate.Apply.Steps.{
  Step, idle, inserted, deleted, Steps, done, then_step,
}
use bindizr.Service.DynamicUpdate.Apply.Consistency.{
  records_of-insert, records_of-delete, Step-IsConsistent,
}
use bindizr.Service.DynamicUpdate.Apply.Isolation.{IsIdOf, HasKeys, Step-HasKeys}
use bindizr.Service.History.{ReconstructedRecord, of_record, has_key, undo_all}
use bindizr.Service.History.Undo.{bucket, SameRows}
use bindizr.Service.History.Keys.{IsConsistent-HasDistinctKeys, kept_rows, put_back}
use bindizr.Service.History.Changes.{map-append, rows, undo_add, undo_deletions, undo_all-append}

module _ (ip : IpText) (zone : Zone) where
  -- What the tables keep of one zone: keys, the rules, and owners that fit in it.
  pub record IsSound (db : Db) : Type 0 where
    pub keys : HasKeys db
    pub consistent : IsConsistent ip (records_of zone.id db)
    pub owners : All (λ r. IsOwnerIn zone.name r.name) (records_of zone.id db)

module _ (ip : IpText) (u : Uppercase) (zone : Zone) (serial : ℤ) where
  -- What the journal gained between two states gives back the rows of the first from those of the
  -- second.
  pub record Journaled (db : Db) (db' : Db) : Type 0 where
    pub gained : List ZoneChange
    pub appended : db'.changes ≡ db.changes ++ gained
    pub stamped : All (λ (c : ZoneChange). (c.zone_id ≡ zone.id) × (c.serial ≡ serial)) gained
    pub undone :
        (state : List ReconstructedRecord)
        → SameRows ip state (rows zone db')
        → SameRows ip (undo_all ip u gained state) (rows zone db)

  stamped_changes :
      (operation : Str) (rs : List Record)
      → All
          (λ (c : ZoneChange). (c.zone_id ≡ zone.id) × (c.serial ≡ serial))
          (map (change_of zone.id serial operation) rs)
  stamped_changes operation [] = tt
  stamped_changes operation (r ∷ rs) = ((refl, refl), stamped_changes operation rs)

  insert-Journaled :
      (db : Db) (r : Record)
      → r.zone_id ≡ zone.id
      → r.record_type ≢ soa
      → Journaled db (insert_records_with_changes db zone.id serial (r ∷ []))
  unfolding insert_records_with_changes with_ids
  insert-Journaled db r z not_soa =
      let row = with_id (pos db.next_id) r in
      let rows_after : rows zone (insert_records_with_changes db zone.id serial (r ∷ []))
          ≡ rows zone db ++ of_record row ∷ [] =
        ap (map of_record) (records_of-insert db zone serial r z)
        ∙ map-append of_record (records_of zone.id db) (row ∷ []) in
      record {
        gained = change_of zone.id serial op_add row ∷ [];
        appended = refl;
        stamped = ((refl, refl), tt);
        undone = λ state same.
            undo_add ip u zone.id serial row state (rows zone db) not_soa
              (λ k. same k ∙ ap (bucket ip k) rows_after);
      }

  delete-Journaled :
      (db : Db) (q : Record → Bool)
      → IsZoneName zone.name
      → IsSound ip zone db
      → is_empty (filter q (records_of zone.id db)) ≡ false
      → validate_delete_constraints zone (filter q (records_of zone.id db)) ≡ ok tt
      → Journaled db
          (delete_records_with_changes db zone.id serial (filter q (records_of zone.id db)))
  unfolding delete_records_with_changes validate_delete_constraints
  delete-Journaled db q canonical sound some_left valid =
      let here = records_of zone.id db in
      let taken = filter q here in
      let kept = filter (λ r. not (q r)) here in
      let (no_soa, _) = fail_if-eq-ok (any (is_type soa) taken) _ _ valid in
      let not_soa : All (λ r. r.record_type ≢ soa) taken =
        All-imp (λ r. is_type soa r ≡ false) (λ r. r.record_type ≢ soa)
          (λ r. ne_of_beq r.record_type soa) taken (any-false (is_type soa) taken no_soa) in
      let ids : All (λ r. All (IsIdOf r) here) here =
        part (λ r. All (IsIdOf r) here) db.records
          (All-imp (λ r. All (IsIdOf r) db.records) (λ r. All (IsIdOf r) here)
            (λ r h. part (IsIdOf r) db.records h) db.records sound.keys.unique) in
      let rows_after : rows zone (delete_records_with_changes db zone.id serial taken)
          ≡ map of_record kept =
        ap (map of_record)
          (records_of-delete db zone.id serial zone.id taken some_left ∙ kept_rows q here ids) in
      let distinct =
        IsConsistent-HasDistinctKeys ip u zone.name canonical here sound.consistent sound.owners in
      record {
        gained = map (change_of zone.id serial op_del) taken;
        appended = rw some_left refl;
        stamped = stamped_changes op_del taken;
        undone = λ state same k.
            ap (bucket ip k) (undo_deletions ip u zone.id serial taken state not_soa)
            ∙ filter-append (has_key ip k) state (backwards (map of_record taken))
            ∙ ap (λ l. l ++ bucket ip k (backwards (map of_record taken)))
                (same k ∙ ap (bucket ip k) rows_after)
            ∙ ap (λ l. bucket ip k (map of_record kept) ++ l)
                (filter-backwards (has_key ip k) (map of_record taken))
            ∙ put_back of_record (has_key ip k) q here (distinct k);
      }
    where
      part :
          (P : Record → Type 0) (rs : List Record) → All P rs → All P (filter (in_zone zone.id) rs)
      part P rs h =
          All-filter P (in_zone zone.id) rs
            (All-imp P (λ r. in_zone zone.id r ≡ true → P r) (λ r p _. p) rs h)

  Step-IsSound :
      (db db' : Db) (changed : Bool)
      → Step ip zone serial db db' changed
      → IsZoneName zone.name
      → IsSound ip zone db
      → IsSound ip zone db'
  Step-IsSound db db' changed step canonical sound = record {
    keys = Step-HasKeys ip zone serial db db' changed step sound.keys;
    consistent = Step-IsConsistent ip zone serial db db' changed step sound.consistent;
    owners = owners_after db db' changed step sound.owners;
  }
    where
      owners_after :
          (db db' : Db) (changed : Bool)
          → Step ip zone serial db db' changed
          → All (λ r. IsOwnerIn zone.name r.name) (records_of zone.id db)
          → All (λ r. IsOwnerIn zone.name r.name) (records_of zone.id db')
      owners_after _ _ _ (idle db) h = h
      owners_after _ _ _ (inserted db r z e o) h =
          subst (All (λ r. IsOwnerIn zone.name r.name)) (sym (records_of-insert db zone serial r z))
            (All-append (λ r. IsOwnerIn zone.name r.name) (records_of zone.id db)
              (with_id (pos db.next_id) r ∷ []) h (o canonical, tt))
      owners_after _ _ _ (deleted db q some_left valid) h =
          let taken = filter q (records_of zone.id db) in
          subst (All (λ r. IsOwnerIn zone.name r.name))
            (sym (records_of-delete db zone.id serial zone.id taken some_left))
            (All-filter (λ r. IsOwnerIn zone.name r.name) (λ r. not (has_id taken r))
              (records_of zone.id db)
              (All-imp (λ r. IsOwnerIn zone.name r.name)
                (λ r. not (has_id taken r) ≡ true → IsOwnerIn zone.name r.name) (λ r p _. p)
                (records_of zone.id db) h))

  Step-Journaled :
      (db db' : Db) (changed : Bool)
      → Step ip zone serial db db' changed
      → IsZoneName zone.name
      → IsSound ip zone db
      → Journaled db db'
  Step-Journaled _ _ _ (idle db) canonical sound = record {
    gained = [];
    appended = sym (append-nil db.changes);
    stamped = tt;
    undone = λ state same. unfold undo_all in same;
  }
  Step-Journaled _ _ _ (inserted db r z e o) canonical sound =
      let admitted =
        validate_add_sound ip _ r none
          (resolve_add-new ip _ r.name r.record_type r.value r.ttl r.priority e) in
      insert-Journaled db r z admitted.admissible.not_soa
  Step-Journaled _ _ _ (deleted db q some_left valid) canonical sound =
      delete-Journaled db q canonical sound some_left valid

  -- A run of steps is undone as a whole, and leaves the zone's tables sound.
  pub Steps-Journaled :
      (db db' : Db) (changed : Bool)
      → Steps ip zone serial db db' changed
      → IsZoneName zone.name
      → IsSound ip zone db
      → Journaled db db' × IsSound ip zone db'
  Steps-Journaled _ _ _ (done db) canonical sound =
      (Step-Journaled db db false (idle db) canonical sound, sound)
  Steps-Journaled _ _ _ (then_step db mid last first rest step steps) canonical sound =
      let early = Step-Journaled db mid first step canonical sound in
      let (late, sound') =
        Steps-Journaled mid last rest steps canonical
          (Step-IsSound db mid first step canonical sound) in
      (
        record {
          gained = early.gained ++ late.gained;
          appended =
              late.appended
              ∙ ap (λ l. l ++ late.gained) early.appended
              ∙ append_assoc db.changes early.gained late.gained;
          stamped =
              All-append (λ (c : ZoneChange). (c.zone_id ≡ zone.id) × (c.serial ≡ serial))
                early.gained late.gained early.stamped late.stamped;
          undone = λ state same k.
              ap (bucket ip k) (undo_all-append ip u early.gained late.gained state)
              ∙ early.undone (undo_all ip u late.gained state) (late.undone state same) k;
        },
        sound',
      )
